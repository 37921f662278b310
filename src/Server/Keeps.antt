-- ===== src/Server/Keeps.antt =====
-- What the handlers of server.go keep true, whatever they answer: one rule for each way to build an
-- action. `Guards` says of a property of the shared state that reads, waits and commits respect it;
-- the modules below carry it through each handler.
pub mod Refreshing
pub mod Polling
pub mod Serving
pub mod Offering
pub mod Managing
use ccbroker.Base.{
  ℕ, String, ◌≡◌, refl, Bool, true, false, Option, none, some, List, [], Dict, lookup, insert,
  if◌then◌else◌,
}
use ccbroker.Creds.{Record}
use ccbroker.Anthropic.{Request}
use ccbroker.Store.{Store}
use ccbroker.Store
use ccbroker.Server.State.{
  when◌then◌else◌, Broker, CredState, Env, M, pure, gets, draw, modify, ◌>>=◌, match_option, now,
  wall_now, wait, upstream, lock, try_lock,
}
use ccbroker.Server.Gen.{with_record, stored, commit, cred_state}
use ccbroker.Server.Ring.{retire_hash}

-- `m` keeps `P`.
pub record Keeps {A : Type 0} (P : Broker → Type 0) (m : M A) : Type 0 where
  pub at : (s : Broker) → P s → P (m s).1

-- A property of the store, its version and the wake map.
abbrev pub Shared : Type 1
Shared = Store → ℕ → Dict CredState → Type 0

abbrev pub Holds : Shared → Broker → Type 0
Holds Q s = Q s.store s.store_ver s.gen_state

-- The records that the property lets a handler commit are those whose ring has `G`.
pub record Guards (env : Env) (Q : Shared) (G : List String → Type 0) : Type 0 where
  pub read :
      (st : Store) (v : ℕ) (g : Dict CredState) (name : String) (r : Record)
      → Q st v g
      → Store.get name st ≡ some r
      → G r.retired_hashes
  pub fresh_ring : G []
  pub retire : (ring : List String) (h : String) → G ring → G (retire_hash ring h)
  pub others : (i : ℕ) (s : Broker) → Holds Q s → Holds Q (env.others i s)
  pub beside :
      (i : ℕ) (name : String) (s : Broker) → Holds Q s → Holds Q (env.others_beside i name s)
  pub committed : (nr : Record) → G nr.retired_hashes → Keeps (Holds Q) (commit env nr)
  pub made :
      (name : String) (s : Broker)
      → Holds Q s
      → Q s.store s.store_ver (insert name (cred_state name s) s.gen_state)

module _ {Inv : Broker → Type 0} {A : Type 0} where
  pub Keeps-pure : (answer : A) → Keeps Inv (pure answer)
  unfolding pure
  Keeps-pure answer = record { at = λ b inv. inv }

  pub Keeps-gets : (read : Broker → A) → Keeps Inv (gets read)
  unfolding gets
  Keeps-gets read = record { at = λ b inv. inv }

  pub Keeps-if :
      (test : Bool) (yes_act no_act : M A)
      → Keeps Inv yes_act
      → Keeps Inv no_act
      → Keeps Inv (when test then yes_act else no_act)
  unfolding when◌then◌else◌
  Keeps-if true yes_act no_act ky kn = ky
  Keeps-if false yes_act no_act ky kn = kn

  pub Keeps-match :
      {C : Type 0} (found : Option C) (missing : M A) (next : C → M A)
      → Keeps Inv missing
      → ((c : C) → Keeps Inv (next c))
      → Keeps Inv (match_option found missing next)
  unfolding match_option
  Keeps-match none missing next km kn = km
  Keeps-match (some c) missing next km kn = kn c

  -- A bind whose first value has a property that holds wherever the invariant does.
  pub Keeps-bind_read :
      {C : Type 0} (act : M C) (next : C → M A) (R : C → Type 0)
      → Keeps Inv act
      → ((b : Broker) → Inv b → R (act b).0)
      → ((c : C) → R c → Keeps Inv (next c))
      → Keeps Inv (act >>= next)
  unfolding ◌>>=◌
  Keeps-bind_read act next R ka kr kn = record {
    at = λ b inv. (kn (act b).0 (kr b inv)).at (act b).1 (ka.at b inv);
  }

  pub Keeps-bind :
      {C : Type 0} (act : M C) (next : C → M A)
      → Keeps Inv act
      → ((c : C) → Keeps Inv (next c))
      → Keeps Inv (act >>= next)
  Keeps-bind act next ka kn =
      Keeps-bind_read act next (λ c. Unit {0}) ka (λ b inv. tt) (λ c u. kn c)

pub Keeps-modify :
    {Inv : Broker → Type 0} (change : Broker → Broker)
    → ((b : Broker) → Inv b → Inv (change b))
    → Keeps Inv (modify change)
unfolding modify
Keeps-modify change k = record { at = k }

pub ruleset keeps_rules = (Keeps-pure, Keeps-gets, Keeps-if, Keeps-match, Keeps-bind)

-- What is known of a record that was read.
abbrev pub Reads : (List String → Type 0) → Option Record → Type 0
Reads G none = Unit
Reads G (some r) = G r.retired_hashes

module _ {env : Env} {Q : Shared} {G : List String → Type 0} (k : Guards env Q G) where
  pub Keeps-draw : {A : Type 0} (f : ℕ → A) → Keeps (Holds Q) (draw f)
  unfolding draw
  Keeps-draw f = record { at = λ s h. h }

  pub Keeps-now : Keeps (Holds Q) (now env)
  unfolding now
  Keeps-now = Keeps-draw env.clock

  pub Keeps-wall_now : Keeps (Holds Q) (wall_now env)
  unfolding wall_now
  Keeps-wall_now = Keeps-draw env.wall

  pub Keeps-try_lock : Keeps (Holds Q) (try_lock env)
  unfolding try_lock
  Keeps-try_lock = Keeps-draw env.locks

  pub Keeps-wait : Keeps (Holds Q) (wait env none)
  unfolding wait
  Keeps-wait = record { at = λ s h. k.others s.asked s h }

  pub Keeps-lock : Keeps (Holds Q) (lock env)
  unfolding lock
  Keeps-lock = Keeps-wait

  pub Keeps-upstream :
      (held : Option String) (req : Request) → Keeps (Holds Q) (upstream env held req)
  unfolding upstream
  Keeps-upstream none req = record { at = λ s h. k.others s.asked s h }
  Keeps-upstream (some name) req = record { at = λ s h. k.beside s.asked name s h }

  pub Keeps-stored : (name : String) → Keeps (Holds Q) (stored name)
  unfolding stored
  Keeps-stored name = Keeps-gets _

  stored-Reads : (name : String) (s : Broker) → Holds Q s → Reads G (stored name s).0
  unfolding stored gets
  stored-Reads name s h = read_of (Store.get name s.store) refl
    where
      read_of : (o : Option Record) → Store.get name s.store ≡ o → Reads G o
      read_of none e = tt
      read_of (some r) e = k.read s.store s.store_ver s.gen_state name r h e

  -- A handler that reads a record, and goes on with what is known of it.
  pub Keeps-found :
      {A : Type 0} (name : String) (m : M A) (f : Record → M A)
      → Keeps (Holds Q) m
      → ((r : Record) → G r.retired_hashes → Keeps (Holds Q) (f r))
      → Keeps (Holds Q) (with_record name m f)
  unfolding with_record match_option
  Keeps-found {A} name m f km kf =
      Keeps-bind_read (stored name) _ (Reads G) (Keeps-stored name) (stored-Reads name) split
    where
      split :
          (o : Option Record)
          → Reads G o
          → Keeps (Holds Q) (match_option {A = Record} {B = A} o m f)
      split none h = km
      split (some r) h = kf r h

  pub Keeps-commit : (nr : Record) → G nr.retired_hashes → Keeps (Holds Q) (commit env nr)
  Keeps-commit nr h = k.committed nr h

-- Listed bare, so that a search finds the guards among the hypotheses.
pub ruleset guard_rules = (
  keeps_rules, Keeps-draw, Keeps-now, Keeps-wall_now, Keeps-try_lock, Keeps-wait, Keeps-lock,
  Keeps-upstream, Keeps-stored, Keeps-found, Keeps-commit,
)
