-- ===== src/Server/Migrate/Alike.antt =====
-- Records that a migration leaves alike (Migrate of server.go).
use ccbroker.Base.{
  ℕ, ◌≤◌, String, ◌==◌, ◌≡◌, refl, ◌∙◌, Bool, true, some, List, [], ◌∷◌, eqb, Dict, if◌then◌else◌,
  arith, lookup-insert,
}
use ccbroker.Json.{Value}
use ccbroker.Creds.{Record, health, unset, same_health}
use ccbroker.Anthropic.{Fetched, fetched, failed}
use ccbroker.Store
use ccbroker.Store.{Store}
use ccbroker.Server.State.{when◌then◌else◌}
use ccbroker.Server.Gen.{next_gen}
use ccbroker.Server.Migrate.{identified}

-- The record is the same but for its identity, a health that is written out, and a higher generation.
pub record Alike (old new : Record) : Type 0 where
  pub name : new.name ≡ old.name
  pub oauth : new.oauth ≡ old.oauth
  pub ring : new.retired_hashes ≡ old.retired_hashes
  pub health_same : health new ≡ health old
  pub gen : old.gen ≤ new.gen

pub Alike-refl : (r : Record) → Alike r r
Alike-refl r = record {
  name = refl;
  oauth = refl;
  ring = refl;
  health_same = refl;
  gen = omega arith;
}

pub Alike-trans : (a b c : Record) → Alike a b → Alike b c → Alike a c
Alike-trans a b c p q = record {
  name = q.name ∙ p.name;
  oauth = q.oauth ∙ p.oauth;
  ring = q.ring ∙ p.ring;
  health_same = q.health_same ∙ p.health_same;
  gen = omega (arith, p.gen, q.gen);
}

-- Each record of the list is stored under its name.
abbrev pub Listed : Store → List Record → Type 0
Listed st [] = Unit
Listed st (r ∷ rs) = (Store.get r.name st ≡ some r) × Listed st rs

pub normalized-Alike :
    (r : Record) (t : ℕ)
    → same_health r.health_state unset ≡ true
    → Alike r (record r { health_state = health r; health_since = t })
unfolding health
normalized-Alike r t e = record {
  name = refl;
  oauth = refl;
  ring = refl;
  health_same = ground arith;
  gen = omega arith;
}

pub identified-Alike :
    (r : Record) (changed : Bool) (f : Fetched (Dict Value)) → Alike r (identified r changed f).0
unfolding identified health
identified-Alike r changed (failed e) = Alike-refl r
identified-Alike r changed (fetched acct) = record {
  name = refl;
  oauth = refl;
  ring = refl;
  health_same = refl;
  gen = omega arith;
}

pub numbered-Alike :
    (r : Record) (t : ℕ) → eqb r.gen 0 ≡ true → Alike r (record r { gen = next_gen 0 t })
unfolding health
numbered-Alike r t e = record {
  name = refl;
  oauth = refl;
  ring = refl;
  health_same = refl;
  gen = ground arith;
}

-- Every record of the first store is in the second, alike.
abbrev pub Preserved : Store → Store → Type 0
Preserved old st =
    (name : String) (r0 : Record)
    → Store.get name old ≡ some r0
    → (r : Record) × (Store.get name st ≡ some r) × Alike r0 r

pub get-put :
    (saved : Bool) (r : Record) (st : Store) (name : String)
    → Store.get name (Store.put saved r st).0
      ≡ (if r.name == name then some r else Store.get name st)
unfolding Store.get Store.put Store.save
get-put saved r st name = ground (arith, lookup-insert r.name name r st.data_map)

pub updated-Alike : (r : Record) (t : ℕ) → Alike r (record r { updated_at = t })
unfolding health
updated-Alike r t = record {
  name = refl;
  oauth = refl;
  ring = refl;
  health_same = refl;
  gen = omega arith;
}
