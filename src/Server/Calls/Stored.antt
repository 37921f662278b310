-- ===== src/Server/Calls/Stored.antt =====
-- What holds of every stored record, after any history of calls.
use mathlib.Core.Path.{subst₂}
use ccbroker.Base.{
  String, ◌==◌, eq_iff, ◌≡◌, sym, ◌∙◌, Option, none, some, List, length, ◌≤◌, arith, lookup-erase,
  Bool-cases, inl, inr, if◌then◌else◌,
}
use ccbroker.Creds.{Record}
use ccbroker.Store
use ccbroker.Store.{Store}
use ccbroker.Server.State.{Broker, Env, pure, ◌>>=◌}
use ccbroker.Server.Gen.{commit}
use ccbroker.Server.Gen.Commit.{written, get-commit, ring-written, name-written}
use ccbroker.Server.Ring.{retired_ring}
use ccbroker.Server.Ring.Laws.{length-retire_hash}
use ccbroker.Server.Admin.{admin_delete, remove}
use ccbroker.Server.Keeps.{Keeps, Shared, Holds, Guards}
use ccbroker.Server.Calls.{Call, run}
use ccbroker.Server.Calls.Kept.{Rely, run-kept_all}

-- Every record of the store has `R`, under its name.
abbrev pub EveryRecord : (String → Record → Type 0) → Shared
EveryRecord R st v g = (name : String) (r : Record) → Store.get name st ≡ some r → R name r

-- The ring of a record is within its size.
abbrev pub RingBounded : String → Record → Type 0
RingBounded name r = length r.retired_hashes ≤ 8

-- A record is stored under its own name.
abbrev pub Named : String → Record → Type 0
Named name r = r.name ≡ name

-- A record that a write put in place, or one that was there before.
replaced :
    (R : String → Record → Type 0) (own name : String) (new r : Record) (old : Option Record)
    → R own new
    → (old ≡ some r → R name r)
    → (if own == name then some new else old) ≡ some r
    → R name r
replaced R own name new r old h k e = elim (Bool-cases (own == name)) [
  | inl p ↦ subst₂ R (ground (arith, eq_iff own name)) (ground arith) h
  | inr p ↦ k (ground arith)
]

-- A DELETE takes its record out of memory, also where the save fails, and no other.
pub get-admin_delete :
    (env : Env) (name k : String) (s : Broker)
    → Store.get k (admin_delete env name s).1.store
      ≡ (if name == k then none else Store.get k s.store)
unfolding admin_delete remove ◌>>=◌ pure Store.delete Store.get Store.save
get-admin_delete env name k s = ground (arith, eq_iff name k, lookup-erase name k s.store.data_map)

module _ {R : String → Record → Type 0} (env : Env) where
  commit-EveryRecord :
      (nr : Record)
      → ((s : Broker) → R nr.name (written env nr s))
      → Keeps (Holds (EveryRecord R)) (commit env nr)
  commit-EveryRecord nr h = record {
    at = λ s k name r e.
        replaced R nr.name name (written env nr s) r (Store.get name s.store) (h s) (k name r)
          (sym (get-commit env nr s name) ∙ e);
  }

  admin_delete-EveryRecord : (name : String) → Keeps (Holds (EveryRecord R)) (admin_delete env name)
  admin_delete-EveryRecord name = record {
    at = λ s h k r e. h k r (ground (arith, get-admin_delete env name k s));
  }

Bounded-Guards :
    (env : Env)
    → Rely env (EveryRecord RingBounded)
    → Guards env (EveryRecord RingBounded) (λ ring. length ring ≤ retired_ring)
Bounded-Guards env rely = record {
  read = λ st v g name r h e. h name r e;
  fresh_ring = omega arith;
  retire = length-retire_hash;
  others = rely.others;
  beside = rely.beside;
  committed = λ nr h. commit-EveryRecord env nr (λ s. rw (ring-written env nr s) h);
  made = λ name s h. h;
}

-- The ring of every stored record stays within eight hashes through any history of calls, saves
-- that fail and deletions included, if the other goroutines keep it so.
pub run-RingBounded :
    (env : Env)
    → Rely env (EveryRecord RingBounded)
    → (cs : List Call) (s : Broker) → Holds (EveryRecord RingBounded) s
    → Holds (EveryRecord RingBounded) (run env cs s)
run-RingBounded env rely cs s h =
    run-kept_all (Bounded-Guards env rely) (admin_delete-EveryRecord env) cs s h

Named-Guards :
    (env : Env) → Rely env (EveryRecord Named) → Guards env (EveryRecord Named) (λ ring. Unit)
Named-Guards env rely = record {
  read = λ st v g name r h e. tt;
  fresh_ring = tt;
  retire = λ ring h k. tt;
  others = rely.others;
  beside = rely.beside;
  committed = λ nr h. commit-EveryRecord env nr (λ s. name-written env nr s);
  made = λ name s h. h;
}

-- Every record stays stored under its own name through any history of calls, if the other
-- goroutines keep it so.
pub run-Named :
    (env : Env)
    → Rely env (EveryRecord Named)
    → (cs : List Call) (s : Broker) → Holds (EveryRecord Named) s
    → Holds (EveryRecord Named) (run env cs s)
run-Named env rely cs s h =
    run-kept_all (Named-Guards env rely) (admin_delete-EveryRecord env) cs s h
