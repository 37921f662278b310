-- ===== src/Server/Health/Suspicion.antt =====
-- When a credential becomes suspect (transitionHealth, confirmAuthFailure and the switch of pollOne).
use ccbroker.Base.{
  ◌<◌, ◌≤◌, refl, ◌≢◌, ℕ, suc, String, ◌≡◌, sym, ap, ◌∙◌, ◌⊎◌, inl, inr, true, false, ◌&&◌, Option,
  some, none, arith, pos, ltb_ℤ, Dict, ◌==◌, Bool-cases,
}
use ccbroker.Json.{Value}
use ccbroker.Creds.{Record, HealthState, ok, suspect, access_token, expires_at_ms}
use ccbroker.Anthropic.{
  Usage, fetched, failed, get_usage, fetch_usage, get_profile, Fetched, fetch_profile,
}
use ccbroker.Store
use ccbroker.Server.State.{
  Broker, Env, pure, gets, modify, draw, ◌>>=◌, when◌then◌else◌, match_option, now, upstream, lock,
  wait,
}
use ccbroker.Server.Gen.{commit, stored, with_record}
use ccbroker.Server.Gen.Commit.{written, get-commit, written_fields}
use ccbroker.Server.Health.{
  auth_failed, moved, change_health, transition_health, confirm_auth_failure, judge, observe,
  record_usage, entry_after, set_usage,
}

-- The other goroutines leave the records alone while this one holds no mutex.
abbrev pub Quiet : Env → Type 0
Quiet env = (i : ℕ) (s : Broker) → (env.others i s).store ≡ s.store

-- A record that a transition to `state` may leave under a name: one that was there, or one with
-- that state.
abbrev Left : String → HealthState → Broker → Record → Type 0
Left name state s r = (Store.get name s.store ≡ some r) ⊎ (r.health_state ≡ state)

module _ (env : Env) where
  commit-Left :
      (name : String) (nr r : Record) (s : Broker)
      → Store.get name (commit env nr s).1.store ≡ some r
      → Left name nr.health_state s r
  commit-Left name nr r s found = elim (Bool-cases (nr.name == name)) [
    | inl p ↦
        let is_r : written env nr s ≡ r = ground (arith, get-commit env nr s name) in
        inr
          (sym (ap (λ x. x.health_state) is_r) ∙ ap (λ x. x.health_state) (written_fields env nr s))
    | inr p ↦ inl (ground (arith, get-commit env nr s name))
  ]

  change_health-Left :
      (name : String) (state : HealthState) (gen : ℕ) (rec r : Record) (s : Broker)
      → Store.get name (change_health env state gen rec s).1.store ≡ some r
      → Left name state s r
  unfolding change_health ◌>>=◌ when◌then◌else◌ pure now draw moved
  change_health-Left name state gen rec r s found = ground (
    arith,
    commit-Left name (moved state (env.clock s.asked) rec) r (record s { asked = suc s.asked }),
  )

  transition-Left :
      (name : String) (state : HealthState) (gen : ℕ) (r : Record) (s : Broker)
      → Quiet env
      → Store.get name (transition_health env name state gen s).1.store ≡ some r
      → Left name state s r
  unfolding transition_health ◌>>=◌ lock wait with_record stored gets match_option pure
  transition-Left name state gen r s quiet found =
      under (Store.get name (env.others s.asked s).store) (quiet s.asked s) found
    where
      s' : Broker
      s' = record (env.others s.asked s) { asked = suc s.asked; sent = s.sent }

      under :
          (o : Option Record)
          → s'.store ≡ s.store
          → Store.get name (match_option o (pure false) (change_health env state gen) s').1.store
            ≡ some r
          → Left name state s r
      under none same k = inl (sym (ap (Store.get name) same) ∙ k)
      under (some rec) same k = elim (change_health-Left name state gen rec r s' k) [
        | inl p ↦ inl (sym (ap (Store.get name) same) ∙ p)
        | inr q ↦ inr q
      ]

  -- What confirmAuthFailure says, and the records it leaves.
  confirm-store :
      (token : String) (s : Broker)
      → Quiet env
      → (confirm_auth_failure env token s).1.store ≡ s.store
  unfolding confirm_auth_failure ◌>>=◌ draw wait when◌then◌else◌ pure now upstream
  confirm-store token s quiet =
      let s1 : Broker = record s { asked = suc s.asked } in
      let s2 : Broker = (wait env none s1).1 in
      let s3 : Broker = (now env s2).1 in ground (arith, quiet s1.asked s1, quiet s3.asked s3)

  confirm-Fails :
      (token : String) (s : Broker)
      → (confirm_auth_failure env token s).0 ≡ true
      → (i : ℕ) × (s.asked < i)
        × (auth_failed (fetch_profile (env.clock i) (env.answer (suc i) (get_profile token)))
            ≡ true)
  unfolding confirm_auth_failure ◌>>=◌ draw wait when◌then◌else◌ pure now upstream
  confirm-Fails token s h = (suc (suc s.asked), omega arith, ground arith)

  -- An unexpired token that upstream has rejected with one answer, it rejects again with an answer to
  -- a question behind the one numbered `asked`.
  abbrev pub Confirmed : ℕ → ℕ → Record → Fetched (Dict Value) → Type 0
  Confirmed asked t rec acct =
      (auth_failed acct ≡ true)
      × (ltb_ℤ (pos t) (expires_at_ms rec) ≡ true)
      × (i : ℕ) × (asked < i)
      × (auth_failed
            (fetch_profile (env.clock i) (env.answer (suc i) (get_profile (access_token rec))))
          ≡ true)

  judge-Confirmed :
      (name : String) (t : ℕ) (rec r : Record) (acct : Fetched (Dict Value)) (s : Broker)
      → Quiet env
      → Store.get name (judge env name t rec acct s).1.store ≡ some r
      → r.health_state ≡ suspect
      → (Store.get name s.store ≡ some r) ⊎ Confirmed s.asked t rec acct
  unfolding judge ◌>>=◌ when◌then◌else◌ pure
  judge-Confirmed name t rec r acct s quiet found is_suspect =
      let token = access_token rec in
      let c = confirm_auth_failure env token s in
      let same_store : Store.get name c.1.store ≡ Store.get name s.store =
        ap (Store.get name) (confirm-store token s quiet) in
      elim (Bool-cases (auth_failed acct && ltb_ℤ (pos t) (expires_at_ms rec) && c.0)) [
        | inl p ↦
            let (i, later, fails) = confirm-Fails token s (ground arith) in
            inr (ground arith, ground arith, i, later, fails)
        | inr p ↦ inl (
            ground (
              arith,
              same_store,
              transition-Left name ok rec.gen r s quiet,
              transition-Left name suspect rec.gen r c.1 quiet,
            ))
      ]

  -- The state after the usage and the profile were asked for, and recorded.
  abbrev asked_twice : Record → Broker → Broker
  asked_twice rec s =
      (upstream env none (get_profile (access_token rec))
        (upstream env none (get_usage (access_token rec)) s).1).1

  recorded_lem :
      (name : String) (u : Fetched Usage) (acct : Fetched (Dict Value)) (s : Broker)
      → ((record_usage env name u acct s).1.store ≡ s.store)
        × (s.asked ≤ (record_usage env name u acct s).1.asked)
  unfolding record_usage entry_after ◌>>=◌ gets modify pure now draw set_usage
  recorded_lem name (fetched u) acct s = (refl, omega arith)
  recorded_lem name (failed e) acct s = (refl, omega arith)

  -- The answer about the profile that a poll gets first.
  abbrev pub first_answer : ℕ → Record → Broker → Fetched (Dict Value)
  first_answer t rec s = fetch_profile t (env.answer (suc s.asked) (get_profile (access_token rec)))

  -- Where the other goroutines leave the records alone, a poll of a credential that is not dead, up
  -- to the reclaim, leaves a suspect record only if that record was there before, or if the profile
  -- endpoint has rejected the polled token, with 401 or a revoking 403, in the poll's answer about
  -- the profile and again in the answer to a later question, and the token had not expired.
  pub observe-Confirmed :
      (name : String) (t : ℕ) (rec r : Record) (s : Broker)
      → Quiet env
      → Store.get name (observe env name t rec s).1.store ≡ some r
      → r.health_state ≡ suspect
      → (Store.get name s.store ≡ some r) ⊎ Confirmed (suc s.asked) t rec (first_answer t rec s)
  unfolding observe ◌>>=◌ upstream
  observe-Confirmed name t rec r s quiet found is_suspect =
      let s1 : Broker = (upstream env none (get_usage (access_token rec)) s).1 in
      let s2 : Broker = asked_twice rec s in
      let u : Fetched Usage =
        fetch_usage env.reset_time (env.answer s.asked (get_usage (access_token rec))) in
      let acct : Fetched (Dict Value) = first_answer t rec s in
      let s3 : Broker = (record_usage env name u acct s2).1 in
      let (kept, later) = recorded_lem name u acct s2 in
      let same : s3.store ≡ s.store = kept ∙ quiet (suc s.asked) s1 ∙ quiet s.asked s in
      elim (judge-Confirmed name t rec r acct s3 quiet found is_suspect) [
        | inl there ↦ inl (sym (ap (Store.get name) same) ∙ there)
        | inr (rejected, unexpired, i, after, fails) ↦
            inr (rejected, unexpired, i, omega (arith, later, after), fails)
      ]

  -- Where the other goroutines leave the records alone, evidence about a generation that a
  -- record has left changes no record: the transition is dropped.
  pub transition-stale :
      (name : String) (state : HealthState) (expect_gen : ℕ) (rec : Record) (s : Broker)
      → Quiet env
      → Store.get name s.store ≡ some rec
      → rec.gen ≢ expect_gen
      → ((transition_health env name state expect_gen s).0 ≡ false)
        × ((transition_health env name state expect_gen s).1.store ≡ s.store)
  unfolding transition_health ◌>>=◌ lock wait with_record stored gets change_health when◌then◌else◌
      pure match_option
  transition-stale name state expect_gen rec s quiet found stale =
      let same : (env.others s.asked s).store ≡ s.store = quiet s.asked s in
      let still : Store.get name (env.others s.asked s).store ≡ some rec =
        ap (Store.get name) same ∙ found in
      rw still (ground arith)
