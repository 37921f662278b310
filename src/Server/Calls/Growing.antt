-- ===== src/Server/Calls/Growing.antt =====
-- How two states of the broker are ordered along a history of calls.
use ccbroker.Base.{
  ℕ, String, ◌==◌, eq_iff, ◌≡◌, ap, ◌∙◌, Bool, ◌&&◌, ◌+◌, refl, Option, some, List, ◌≤◌, ◌<◌, arith,
  Dict, lookup, insert, Bool-cases, ◌⊎◌, inl, inr, if◌then◌else◌,
}
use ccbroker.Creds.{Record}
use ccbroker.Store
use ccbroker.Store.{Store}
use ccbroker.Server.State.{Broker, CredState, Env}
use ccbroker.Server.Gen.{commit, gen_of, state_of, cred_state}
use ccbroker.Server.Gen.Commit.{
  state_of-made, written, saved, get-commit, gen-commit, cred_state-commit, store_ver-commit,
}
use ccbroker.Server.Keeps.{Keeps, Holds, Guards}
use ccbroker.Server.Calls.{Call, run}
use ccbroker.Server.Calls.Kept.{Rely, AllNoDelete, run-kept}

-- A record is still stored, as it was or with a higher generation.
abbrev pub StillThere : Record → Option Record → Type 0
StillThere r0 now = (r : Record) × (now ≡ some r) × ((r ≡ r0) ⊎ (r0.gen < r.gen))

-- The wake state is as it was, or its waiters were woken in between.
abbrev pub WokenSince : CredState → CredState → Type 0
WokenSince c0 c = (c.wakes ≡ c0.wakes) × (c.gen ≡ c0.gen) ⊎ (c0.wakes < c.wakes)

pub record Grown (s0 : Broker) (st : Store) (v : ℕ) (g : Dict CredState) : Type 0 where
  pub records :
      (name : String) (r0 : Record)
      → Store.get name s0.store ≡ some r0
      → StillThere r0 (Store.get name st)
  pub version : s0.store_ver ≤ v
  pub woken : (name : String) → WokenSince (cred_state name s0) (state_of (lookup name g))

Grown-refl : (s : Broker) → Holds (Grown s) s
unfolding cred_state
Grown-refl s = record {
  records = λ name r0 e. (r0, e, inl refl);
  version = omega arith;
  woken = λ name. inl (refl, refl);
}

-- What a write puts there has a higher generation.
rewritten :
    (own name : String) (r0 new : Record) (at_own old : Option Record)
    → gen_of at_own < new.gen
    → (own ≡ name → at_own ≡ old)
    → StillThere r0 old
    → StillThere r0 (if own == name then some new else old)
rewritten own name r0 new at_own old lt same (r, e, p) = elim (Bool-cases (own == name)) [
  | inl q ↦
      let at : at_own ≡ some r = same (ground (arith, eq_iff own name)) ∙ e in
      (new, ground arith, inr (ground arith))
  | inr q ↦ (r, ground arith, p)
]

woken_if :
    (b : Bool) (gen : ℕ) (c0 c c' : CredState)
    → WokenSince c0 c
    → c' ≡ (if b then record { gen = gen; wakes = c.wakes + 1 } else c)
    → WokenSince c0 c'
woken_if b gen c0 c c' h e = ground (arith, ap (λ d. d.wakes) e, ap (λ d. d.gen) e)

woken_at :
    {s0 : Broker} (name : String) (s : Broker)
    → Holds (Grown s0) s
    → WokenSince (cred_state name s0) (cred_state name s)
unfolding cred_state
woken_at name s h = h.woken name

module _ (env : Env) (s0 : Broker) (nr : Record) where
  records-commit :
      (s : Broker)
      → Holds (Grown s0) s
      → (name : String) (r0 : Record) → Store.get name s0.store ≡ some r0
      → StillThere r0 (Store.get name (commit env nr s).1.store)
  records-commit s h name r0 e = rw (get-commit env nr s name) (
      rewritten nr.name name r0 (written env nr s) (Store.get nr.name s.store)
        (Store.get name s.store) (gen-commit env nr s) (λ p. ap (λ n. Store.get n s.store) p)
        (h.records name r0 e))

  woken-commit :
      (s : Broker)
      → Holds (Grown s0) s
      → (name : String) → WokenSince (cred_state name s0) (cred_state name (commit env nr s).1)
  woken-commit s h name =
      woken_if (saved env nr s && nr.name == name) (written env nr s).gen (cred_state name s0)
        (cred_state name s) (cred_state name (commit env nr s).1) (woken_at name s h)
        (cred_state-commit env nr s name)

  commit-Grown : Keeps (Holds (Grown s0)) (commit env nr)
  unfolding cred_state
  commit-Grown = record {
    at = λ s h. record {
      records = records-commit s h;
      version = ground (arith, store_ver-commit env nr s, h.version);
      woken = woken-commit s h;
    };
  }

made-Grown :
    {s0 : Broker} (name : String) (s : Broker)
    → Holds (Grown s0) s
    → Grown s0 s.store s.store_ver (insert name (cred_state name s) s.gen_state)
unfolding cred_state
made-Grown name s h = record {
  records = h.records;
  version = h.version;
  woken = λ j. rw (state_of-made name j s.gen_state) (h.woken j);
}

Grown-Guards :
    {env : Env} (s0 : Broker) → Rely env (Grown s0) → Guards env (Grown s0) (λ ring. Unit)
Grown-Guards {env} s0 rely = record {
  read = λ st v g name r h e. tt;
  fresh_ring = tt;
  retire = λ ring h k. tt;
  others = rely.others;
  beside = rely.beside;
  committed = λ nr h. commit-Grown env s0 nr;
  made = made-Grown;
}

grown :
    (env : Env) (s : Broker)
    → Rely env (Grown s)
    → (cs : List Call) → AllNoDelete cs
    → Holds (Grown s) (run env cs s)
grown env s rely cs n = run-kept (Grown-Guards s rely) cs s n (Grown-refl s)

-- Through any history of calls without a DELETE, a stored credential is never lost, and its record is
-- as it was or has a higher generation, if the other goroutines keep this too.
pub run-record_grows :
    (env : Env) (s : Broker)
    → Rely env (Grown s)
    → (cs : List Call) → AllNoDelete cs
    → (name : String) (r0 : Record) → Store.get name s.store ≡ some r0
    → StillThere r0 (Store.get name (run env cs s).store)
run-record_grows env s rely cs n name r0 e = (grown env s rely cs n).records name r0 e

-- Through such a history, the version of the store never falls, and the generation that is announced
-- for a credential changes only together with a wake-up of those who wait for it.
pub run-woken :
    (env : Env) (s : Broker)
    → Rely env (Grown s)
    → (cs : List Call) → AllNoDelete cs
    → (name : String)
    → (s.store_ver ≤ (run env cs s).store_ver)
      × WokenSince (cred_state name s) (cred_state name (run env cs s))
run-woken env s rely cs n name =
    let h = grown env s rely cs n in (h.version, woken_at name (run env cs s) h)
