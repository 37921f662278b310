-- ===== src/Server/Health/Recovery.antt =====
-- How a dead credential comes back (pollOne and transitionHealth of server.go).
use ccbroker.Base.{
  ◌+◌, ℕ, suc, String, ◌<◌, ◌≡◌, refl, ap, ◌∙◌, Bool, true, false, not, ◌&&◌, Option, some, none,
  arith, lookup, ltb, eqb, eq_iff, if◌then◌else◌,
}
use mathlib.Core.Path.{subst}
use ccbroker.Creds.{Record, HealthState, ok, dead, health, same_health, access_token}
use ccbroker.Anthropic.{get_profile, fetch_profile}
use ccbroker.Store
use ccbroker.Server.State.{
  Broker, Env, pure, gets, modify, draw, ◌>>=◌, when◌then◌else◌, match_option, now, upstream, lock,
  wait,
}
use ccbroker.Server.Gen.{commit, stored, with_record, gen_of}
use ccbroker.Server.Gen.Commit.{written, get-commit, gen-commit, written_fields}
use ccbroker.Server.Health.{
  succeeded, moved, change_health, transition_health, poll_dead, poll_found, poll_one, is_state,
  set_dead_probe, time_of,
}
use ccbroker.Server.Health.Suspicion.{Quiet}

-- The record is as it was, but in another health, and at a higher generation.
pub record Turned (state : HealthState) (old new : Record) : Type 0 where
  pub turned : new.health_state ≡ state
  pub oauth : new.oauth ≡ old.oauth
  pub ring : new.retired_hashes ≡ old.retired_hashes
  -- a credential that is ok has no error on record
  pub error : new.last_error ≡ (if same_health state ok then "" else old.last_error)
  pub gen : old.gen < new.gen

-- The record under the name has turned.
abbrev pub Turns : HealthState → Record → Option Record → Type 0
Turns state old found = (new : Record) × (found ≡ some new) × Turned state old new

dead-not_ok : (h : HealthState) → same_health h dead ≡ true → same_health h ok ≡ false
unfolding same_health
dead-not_ok h e = ground arith

module _ (env : Env) where
  commit-Turned :
      (name : String) (state : HealthState) (t : ℕ) (rec : Record) (s : Broker)
      → Store.get name s.store ≡ some rec
      → rec.name ≡ name
      → Turns state rec (Store.get name (commit env (moved state t rec) s).1.store)
  unfolding moved
  commit-Turned name state t rec s found own =
      let nr : Record = moved state t rec in
      let f = written_fields env nr s in
      (
        written env nr s,
        ground (arith, get-commit env nr s name, eq_iff nr.name name),
        record {
          turned = ap (λ r. r.health_state) f;
          oauth = ap (λ r. r.oauth) f;
          ring = ap (λ r. r.retired_hashes) f;
          error = ap (λ r. r.last_error) f;
          gen =
              subst (λ o. gen_of o < (written env nr s).gen)
                (ap (λ n. Store.get n s.store) own ∙ found) (gen-commit env nr s);
        },
      )

  change_health-Turned :
      (name : String) (state : HealthState) (rec : Record) (s : Broker)
      → Store.get name s.store ≡ some rec
      → rec.name ≡ name
      → is_state state rec ≡ false
      → Turns state rec (Store.get name (change_health env state rec.gen rec s).1.store)
  unfolding change_health ◌>>=◌ when◌then◌else◌ pure now draw
  change_health-Turned name state rec s found own other =
      let same : eqb rec.gen rec.gen ≡ true = ground arith in
      rw other (
        rw same (
          commit-Turned name state (env.clock s.asked) rec (record s { asked = suc s.asked }) found
            own))

  -- Where the other goroutines leave the records alone, a transition to another health on evidence
  -- about the present generation is made.
  transition-Turned :
      (name : String) (state : HealthState) (rec : Record) (s : Broker)
      → Quiet env
      → Store.get name s.store ≡ some rec
      → rec.name ≡ name
      → is_state state rec ≡ false
      → Turns state rec (Store.get name (transition_health env name state rec.gen s).1.store)
  unfolding transition_health ◌>>=◌ lock wait with_record stored gets match_option pure
  transition-Turned name state rec s quiet found own other =
      let s' : Broker = record (env.others s.asked s) { asked = suc s.asked; sent = s.sent } in
      let still : Store.get name s'.store ≡ some rec =
        ap (Store.get name) (quiet s.asked s) ∙ found in
      rw still (change_health-Turned name state rec s' still own other)

  -- A dead credential is due for a probe, and the profile endpoint takes its token.
  abbrev pub due : String → Broker → Bool
  due name s =
      not (ltb (env.clock s.asked) (time_of (lookup name s.dead_probe) + env.dead_probe_interval))

  abbrev pub taken : Record → Broker → Bool
  taken rec s = succeeded (
      fetch_profile (env.clock s.asked) (env.answer (suc s.asked) (get_profile (access_token rec))))

  -- The state after a probe of a dead credential.
  abbrev probed : String → Record → Broker → Broker
  probed name rec s =
      (upstream env none (get_profile (access_token rec))
        (set_dead_probe name (env.clock s.asked) (record s { asked = suc s.asked }))).1

  probed-store :
      (name : String) (rec : Record) (s : Broker) → Quiet env → (probed name rec s).store ≡ s.store
  unfolding upstream set_dead_probe
  probed-store name rec s quiet =
      quiet (suc s.asked)
        (set_dead_probe name (env.clock s.asked) (record s { asked = suc s.asked }))

  poll_one-store :
      (name : String) (rec : Record) (s : Broker)
      → Quiet env
      → Store.get name s.store ≡ some rec
      → is_state dead rec ≡ true
      → (poll_one env name s).1.store ≡ (
          if due name s && taken rec s
          then (transition_health env name ok rec.gen (probed name rec s)).1.store
          else s.store)
  unfolding poll_one poll_found poll_dead ◌>>=◌ with_record stored gets modify match_option now draw
      upstream set_dead_probe when◌then◌else◌ pure
  poll_one-store name rec s quiet found is_dead =
      rw found (rw is_dead (ground (arith, probed-store name rec s quiet)))

  -- Where the other goroutines leave the records alone, a poll of a dead credential whose token the
  -- profile endpoint takes again, no sooner than the interval after the last probe, makes it ok with
  -- its tokens, its ring and no error, at a higher generation; any other poll of a dead credential
  -- leaves every record as it was.
  pub poll_one-revives :
      (name : String) (rec : Record) (s : Broker)
      → Quiet env
      → Store.get name s.store ≡ some rec
      → rec.name ≡ name
      → is_state dead rec ≡ true
      → (due name s && taken rec s ≡ true
          → Turns ok rec (Store.get name (poll_one env name s).1.store))
        × (due name s && taken rec s ≡ false → (poll_one env name s).1.store ≡ s.store)
  poll_one-revives name rec s quiet found own is_dead =
      let s3 : Broker = probed name rec s in
      let still : Store.get name s3.store ≡ some rec =
        ap (Store.get name) (probed-store name rec s quiet) ∙ found in
      let left = poll_one-store name rec s quiet found is_dead in
      (
        λ e. rw left (
            rw e (
              transition-Turned name ok rec s3 quiet still own (dead-not_ok (health rec) is_dead))),
        λ e. left ∙ rw e refl,
      )
