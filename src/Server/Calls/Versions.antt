-- ===== src/Server/Calls/Versions.antt =====
-- How the store, its version and the announced generations go together (storeVer and credState of
-- server.go).
use ccbroker.Base.{
  ℕ, suc, String, ◌==◌, eq_iff, ◌≡◌, sym, ap, ◌∙◌, refl, Option, some, true, List, ◌≤◌, arith,
  lookup, insert, if◌then◌else◌, ◌+◌, Bool, ◌&&◌,
}
use ccbroker.Creds.{Record}
use ccbroker.Store
use ccbroker.Store.{Store}
use ccbroker.Server.State.{
  Broker, CredState, Env, pure, gets, draw, modify, ◌>>=◌, when◌then◌else◌, now,
}
use ccbroker.Server.Gen.{commit, gen_of, state_of, cred_state, stored, put, publish}
use ccbroker.Server.Gen.Commit.{
  written, saved, get-commit, gen-commit, cred_state-commit, store_ver-commit, state_of-made,
}
use ccbroker.Server.Admin.{admin_delete, remove}
use ccbroker.Server.Keeps.{Keeps, Shared, Holds, Guards}
use ccbroker.Server.Calls.{Call, run}
use ccbroker.Server.Calls.Kept.{Rely, AllNoDelete, run-kept, run-kept_all}
use ccbroker.Server.Calls.Stored.{get-admin_delete}

-- No generation is announced above that of the record.
abbrev pub NeverAhead : Shared
NeverAhead st v g = (name : String) → (state_of (lookup name g)).gen ≤ gen_of (Store.get name st)

-- The generation of every stored record is the one announced.
abbrev pub Announced : Shared
Announced st v g =
    (name : String) (r : Record)
    → Store.get name st ≡ some r
    → (state_of (lookup name g)).gen ≡ r.gen

-- A version that did not change means that no record did.
abbrev pub Detects : Broker → Shared
Detects s0 st v g =
    (s0.store_ver ≤ v)
    × (v ≡ s0.store_ver → (name : String) → Store.get name st ≡ Store.get name s0.store)

-- Every save succeeds.
abbrev pub AllSaved : Env → Type 0
AllSaved env = (i : ℕ) → env.saves i ≡ true

saved-commit : (env : Env) (nr : Record) (s : Broker) → AllSaved env → saved env nr s ≡ true
unfolding commit stored put publish now ◌>>=◌ gets draw modify pure when◌then◌else◌ Store.put
    Store.save
saved-commit env nr s h = ground (arith, h (suc (suc s.asked)))

announced_if :
    (b done : Bool) (old : Option Record) (c c' : CredState) (w r : Record)
    → done ≡ true
    → c' ≡ (if done && b then record { gen = w.gen; wakes = c.wakes + 1 } else c)
    → (if b then some w else old) ≡ some r
    → (old ≡ some r → c.gen ≡ r.gen)
    → c'.gen ≡ r.gen
announced_if b done old c c' w r d e g h = ground (arith, ap (λ x. x.gen) e)

module _ (env : Env) (nr : Record) where
  commit-NeverAhead : Keeps (Holds NeverAhead) (commit env nr)
  unfolding cred_state
  commit-NeverAhead = record {
    at = λ s h name. ground (
      arith,
      eq_iff nr.name name,
      h name,
      gen-commit env nr s,
      cred_state-commit env nr s name,
      get-commit env nr s name,
    );
  }

  commit-Announced : AllSaved env → Keeps (Holds Announced) (commit env nr)
  unfolding cred_state
  commit-Announced all = record {
    at = λ s h name r e.
        announced_if (nr.name == name) (saved env nr s) (Store.get name s.store) (cred_state name s)
          (cred_state name (commit env nr s).1) (written env nr s) r (saved-commit env nr s all)
          (cred_state-commit env nr s name) (sym (get-commit env nr s name) ∙ e) (h name r);
  }

  commit-Detects : AllSaved env → (s0 : Broker) → Keeps (Holds (Detects s0)) (commit env nr)
  commit-Detects all s0 = record {
    at = λ s h. (
      ground (arith, store_ver-commit env nr s, h.0),
      λ p name. absurd (ground (arith, store_ver-commit env nr s, saved-commit env nr s all, h.0)),
    );
  }

made-Announced :
    (name : String) (s : Broker)
    → Holds Announced s
    → Announced s.store s.store_ver (insert name (cred_state name s) s.gen_state)
unfolding cred_state
made-Announced name s h j r e = rw (state_of-made name j s.gen_state) (h j r e)

made-NeverAhead :
    (name : String) (s : Broker)
    → Holds NeverAhead s
    → NeverAhead s.store s.store_ver (insert name (cred_state name s) s.gen_state)
unfolding cred_state
made-NeverAhead name s h j = rw (state_of-made name j s.gen_state) (h j)

module _ {env : Env} {Q : Shared} (rely : Rely env Q) where
  guards :
      ((nr : Record) → Keeps (Holds Q) (commit env nr))
      → ((name : String) (s : Broker)
          → Holds Q s
          → Q s.store s.store_ver (insert name (cred_state name s) s.gen_state))
      → Guards env Q (λ ring. Unit)
  guards commits made = record {
    read = λ st v g name r h e. tt;
    fresh_ring = tt;
    retire = λ ring h k. tt;
    others = rely.others;
    beside = rely.beside;
    committed = λ nr h. commits nr;
    made = made;
  }

-- Through any history of calls without a DELETE, saves that fail included, no generation is announced
-- to the long-polls that is above the stored one, if the other goroutines keep this too.
pub run-never_ahead :
    (env : Env) (cs : List Call) (s : Broker)
    → Rely env NeverAhead
    → AllNoDelete cs
    → Holds NeverAhead s
    → (name : String)
    → (cred_state name (run env cs s)).gen ≤ gen_of (Store.get name (run env cs s).store)
unfolding cred_state
run-never_ahead env cs s rely n h name =
    run-kept (guards rely (commit-NeverAhead env) made-NeverAhead) cs s n h name

delete-Announced : (env : Env) (name : String) → Keeps (Holds Announced) (admin_delete env name)
unfolding admin_delete remove ◌>>=◌ pure
delete-Announced env name = record {
  at = λ s h k r e. h k r (ground (arith, get-admin_delete env name k s));
}

-- Where every save succeeds, the generation announced for a stored credential is that of its record,
-- through any history of calls, if the other goroutines keep this too.
pub run-announced :
    (env : Env) (cs : List Call) (s : Broker)
    → AllSaved env
    → Rely env Announced
    → Holds Announced s
    → (name : String) (r : Record) → Store.get name (run env cs s).store ≡ some r
    → (cred_state name (run env cs s)).gen ≡ r.gen
unfolding cred_state
run-announced env cs s all rely h name r e =
    run-kept_all (guards rely (λ nr. commit-Announced env nr all) made-Announced)
      (delete-Announced env) cs s h name r e

-- Where every save succeeds, and through any history of calls without a DELETE, a version that did
-- not change means that no record did, if the other goroutines keep this too.
pub run-detects :
    (env : Env) (cs : List Call) (s : Broker)
    → AllSaved env
    → Rely env (Detects s)
    → AllNoDelete cs
    → (run env cs s).store_ver ≡ s.store_ver
    → (name : String) → Store.get name (run env cs s).store ≡ Store.get name s.store
run-detects env cs s all rely n same name =
    (run-kept (guards rely (λ nr. commit-Detects env nr all s) (λ k t h. h)) cs s n
        (omega arith, λ p k. refl)).1
      same name
