-- ===== src/Server/Gen.antt =====
-- The generation counter, how a record is written, and the long-poll (server.go: nextGen,
-- commit, seedGen, waitForGen).
pub mod Commit
use ccbroker.Base.{
  ℕ, suc, ◌+◌, String, Bool, true, false, not, ◌&&◌, Option, none, some, ℤ, pos, ltb_ℤ, lookup,
  insert, ltb, eqb, if◌then◌else◌,
}
use ccbroker.Creds.{Record}
use ccbroker.Store
use ccbroker.Server.State.{
  match_option, when◌then◌else◌, Broker, CredState, Env, M, pure, gets, draw, modify, ◌>>=◌, ◌>>◌,
  now, wait,
}

-- nextGen, at time `t`
unfoldable pub next_gen : ℕ → ℕ → ℕ
next_gen stored t = let g = stored + 1 in if ltb g t then t else g

abbrev pub gen_of : Option Record → ℕ
gen_of none = 0
gen_of (some r) = r.gen

abbrev pub state_of : Option CredState → CredState
state_of none = record { gen = 0; wakes = 0 }
state_of (some st) = st

-- The wake state of a credential; one that is missing is made.
unfoldable pub cred_state : String → Broker → CredState
cred_state name s = state_of (lookup name s.gen_state)

-- s.store.Get(name)
unfoldable pub stored : String → M (Option Record)
stored name = gets (λ s. Store.get name s.store)

-- rec, ok := s.store.Get(name), with what is done where it is not ok
unfoldable pub with_record : {A : Type 0} → String → M A → (Record → M A) → M A
with_record name missing f = do found ← stored name; match_option found missing f

-- st.gen = gen, and close(st.wake) with a new channel
unfoldable pub wake : String → ℕ → Broker → Broker
wake name gen s = record s {
  gen_state = insert name (record { gen = gen; wakes = (cred_state name s).wakes + 1 }) s.gen_state;
}

-- seedGen
unfoldable pub seed_gen : Record → M (Unit {0})
seed_gen rec = modify λ s. record s {
  gen_state =
      insert rec.name (record { gen = rec.gen; wakes = (cred_state rec.name s).wakes }) s.gen_state;
}

module _ (env : Env) where
  -- s.store.Put(r)
  unfoldable pub put : Record → M Bool
  put r s =
      let (st, done) = Store.put (env.saves s.asked) r s.store in
      (done, record s { store = st; asked = suc s.asked })

  unfoldable pub publish : Record → M (Unit {0})
  publish r = modify λ s. wake r.name r.gen (record s { store_ver = s.store_ver + 1 })

  -- commit: the record as it is written, and whether it was saved
  unfoldable pub commit : Record → M (Record × Bool)
  commit nr = do
    prev ← stored nr.name
    t ← now env
    updated ← now env
    let r = record nr { gen = next_gen (gen_of prev) t; updated_at = updated }
    saved ← put r
    when saved then (publish r >> pure (r, true)) else pure (r, false)

  -- The select of waitForGen, entered with the generation and the wake channel captured.
  unfoldable pub await_wake : String → ℕ → ℕ → M (ℕ × Bool)
  await_wake name cur channel = do
    wait env none
    after ← gets (cred_state name)
    first ← draw env.wake_first
    when not (eqb after.wakes channel) && first then pure (after.gen, true) else pure (cur, false)

  -- waitForGen
  unfoldable pub wait_for_gen : String → ℤ → M (ℕ × Bool)
  wait_for_gen name since_gen = do
    modify (λ s. record s { gen_state = insert name (cred_state name s) s.gen_state })
    st ← gets (cred_state name)
    when ltb_ℤ since_gen (pos st.gen) then pure (st.gen, true) else await_wake name st.gen st.wakes
