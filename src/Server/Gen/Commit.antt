-- ===== src/Server/Gen/Commit.antt =====
-- What nextGen and commit do to the store and the wake map.
use ccbroker.Base.{
  ◌&&◌, ◌+◌, eq_iff, ℕ, ◌≤◌, ◌<◌, String, ◌==◌, ◌≡◌, Bool, some, lookup-insert, if◌then◌else◌, Dict,
  lookup, insert, arith,
}
use ccbroker.Creds.{Record}
use ccbroker.Store
use ccbroker.Server.State.{
  Broker, CredState, Env, pure, gets, draw, modify, ◌>>=◌, when◌then◌else◌, now,
}
use ccbroker.Server.Gen.{next_gen, gen_of, stored, wake, put, publish, commit, cred_state, state_of}

-- A new generation is above the stored one and not below the clock.
pub next_gen_lem : (old t : ℕ) → (old < next_gen old t) × (t ≤ next_gen old t)
unfolding next_gen
next_gen_lem old t = ground arith

-- Making the wake state of a credential changes no state that is read.
pub state_of-made :
    (name j : String) (g : Dict CredState)
    → state_of (lookup j (insert name (state_of (lookup name g)) g)) ≡ state_of (lookup j g)
state_of-made name j g =
    ground (arith, lookup-insert name j (state_of (lookup name g)) g, eq_iff name j)

module _ (env : Env) (nr : Record) (s : Broker) where
  -- The record that a commit writes, and whether it was saved.
  abbrev pub written : Record
  written = (commit env nr s).0.0

  abbrev pub saved : Bool
  saved = (commit env nr s).0.1

  abbrev pub after : Broker
  after = (commit env nr s).1

  -- The new record is in memory, also where the save fails, and no other record changes.
  pub get-commit :
      (name : String)
      → Store.get name after.store
        ≡ (if nr.name == name then some written else Store.get name s.store)
  unfolding commit stored put publish now ◌>>=◌ gets draw modify pure when◌then◌else◌ Store.get
      Store.put wake
  get-commit name = ground (arith, lookup-insert nr.name name written s.store.data_map)

  pub gen-commit : gen_of (Store.get nr.name s.store) < written.gen
  unfolding commit stored put publish now ◌>>=◌ gets draw modify pure when◌then◌else◌
  gen-commit = ground (arith, next_gen_lem (gen_of (Store.get nr.name s.store)) (env.clock s.asked))

  -- A saved commit moves the wake state of its credential to the new generation and wakes the
  -- waiters; one that is not saved, and any other credential, changes nothing.
  pub cred_state-commit :
      (name : String)
      → cred_state name after ≡ (
          if saved && nr.name == name
          then record { gen = written.gen; wakes = (cred_state name s).wakes + 1 }
          else cred_state name s)
  unfolding commit stored put publish now ◌>>=◌ gets draw modify pure when◌then◌else◌ Store.put
      Store.save wake cred_state
  cred_state-commit name = ground (
    arith,
    eq_iff nr.name name,
    lookup-insert nr.name name
        (record { gen = written.gen; wakes = (cred_state nr.name s).wakes + 1 }) s.gen_state,
  )

  pub store_ver-commit : after.store_ver ≡ (if saved then s.store_ver + 1 else s.store_ver)
  unfolding commit stored put publish now ◌>>=◌ gets draw modify pure when◌then◌else◌ Store.put
      Store.save wake
  store_ver-commit = ground arith

  -- A commit sets two fields, and keeps the others of the record.
  pub written_fields : written ≡ record nr { gen = written.gen; updated_at = written.updated_at }
  unfolding commit stored put publish now ◌>>=◌ gets draw modify pure when◌then◌else◌
  written_fields = ground arith

  pub ring-written : written.retired_hashes ≡ nr.retired_hashes
  unfolding commit stored put publish now ◌>>=◌ gets draw modify pure when◌then◌else◌
  ring-written = ground arith

  pub name-written : written.name ≡ nr.name
  unfolding commit stored put publish now ◌>>=◌ gets draw modify pure when◌then◌else◌
  name-written = ground arith

  -- A commit sends nothing.
  pub sent-commit : after.sent ≡ s.sent
  unfolding commit stored put publish now ◌>>=◌ gets draw modify pure when◌then◌else◌ Store.put
      Store.save wake
  sent-commit = ground arith
