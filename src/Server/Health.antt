-- ===== src/Server/Health.antt =====
-- The health of a credential (server.go: transitionHealth, probeCred, recordUsage,
-- confirmAuthFailure, reclaim, pollOne, poll). A difference of two times is compared with a period
-- by adding the period to the earlier one, which is exact also where the clock stepped back.
pub mod Suspicion
pub mod Reclaiming
pub mod Recovery
use ccbroker.Base.{
  ℕ, ◌+◌, String, Bool, true, false, not, ◌&&◌, Option, none, some, List, [], ◌∷◌, pos, ltb_ℤ, Dict,
  lookup, insert, ltb, leb, eqb, if◌then◌else◌,
}
use ccbroker.Json.{Value}
use ccbroker.Creds.{
  Record, HealthState, ok, suspect, dead, health, same_health, access_token, refresh_token,
  expires_at_ms,
}
use ccbroker.Anthropic.{
  refresh_grant, get_profile, get_usage, Fetched, fetched, failed, Usage, Refreshed, granted,
  refused, refresh, auth_failure, fetch_profile, fetch_usage,
}
use ccbroker.Store
use ccbroker.Server.State.{
  Broker, when◌then◌else◌, UsageEntry, ProbeEntry, Env, M, pure, gets, draw, modify, ◌>>=◌, ◌>>◌,
  match_option, now, wait, upstream, lock,
}
use ccbroker.Server.Gen.{with_record, commit}
use ccbroker.Server.Refresh.{apply_refresh, mark_dead}

-- err == nil
unfoldable pub succeeded {ℓ} : {A : Type ℓ} → Fetched A → Bool
succeeded (fetched a) = true
succeeded (failed e) = false

-- anthropic.AuthFailure(err)
unfoldable pub auth_failed {ℓ} : {A : Type ℓ} → Fetched A → Bool
auth_failed (fetched a) = false
auth_failed (failed e) = auth_failure e

abbrev pub is_state : HealthState → Record → Bool
is_state h r = same_health (health r) h

-- LastError is cleared by a transition to ok only.
abbrev error_after : HealthState → String → String
error_after state e = if same_health state ok then "" else e

-- The record that a transition writes.
unfoldable pub moved : HealthState → ℕ → Record → Record
moved state since rec = record rec {
  health_state = state;
  health_since = since;
  last_error = error_after state rec.last_error;
}

abbrev time_of : Option ℕ → ℕ
time_of none = 0
time_of (some t) = t

abbrev pub usage_of : Option UsageEntry → UsageEntry
usage_of none = record { usage = none; oauth_account = []; fetched_at = 0; last_error = "" }
usage_of (some e) = e

abbrev with_account : Fetched (Dict Value) → UsageEntry → UsageEntry
with_account (fetched acct) e = record e { oauth_account = acct }
with_account (failed err) e = e

-- A cached probe that attests this generation and is younger than the TTL.
abbrev fresh_probe : ℕ → ℕ → ℕ → Option ProbeEntry → Option Bool
fresh_probe ttl t gen none = none
fresh_probe ttl t gen (some e) =
    if eqb e.for_gen gen && ltb t (e.at + ttl) then some e.live else none

unfoldable pub set_usage : String → UsageEntry → Broker → Broker
set_usage name e s = record s { usage = insert name e s.usage }

unfoldable pub set_probe : String → ProbeEntry → Broker → Broker
set_probe name e s = record s { probe = insert name e s.probe }

unfoldable pub set_dead_probe : String → ℕ → Broker → Broker
set_dead_probe name t s = record s { dead_probe = insert name t s.dead_probe }

module _ (env : Env) where
  -- The part of transitionHealth that is reached with the record in the store.
  unfoldable pub change_health : HealthState → ℕ → Record → M Bool
  change_health state expect_gen rec =
      when same_health (health rec) state
      then pure false
      else (when not (eqb rec.gen expect_gen)
          then pure false
          else do since ← now env; written ← commit env (moved state since rec); pure written.1)

  -- transitionHealth
  unfoldable pub transition_health : String → HealthState → ℕ → M Bool
  transition_health name state expect_gen = do
    lock env
    with_record name (pure false) (change_health state expect_gen)

  unfoldable pub entry_after : Fetched Usage → UsageEntry → M UsageEntry
  entry_after (fetched u) e = do
    t ← now env
    pure (record e { usage = some u; fetched_at = t; last_error = "" })
  entry_after (failed err) e = pure (record e { last_error = env.fetch_error_text err })

  -- recordUsage
  unfoldable pub record_usage : String → Fetched Usage → Fetched (Dict Value) → M (Unit {0})
  record_usage name u acct = do
    old ← gets (λ s. usage_of (lookup name s.usage))
    e ← entry_after u old
    modify (set_usage name (with_account acct e))

  unfoldable pub probe_upstream : ℕ → Record → M Bool
  probe_upstream t rec = do
    a ← upstream env none (get_profile (access_token rec))
    let live = succeeded (fetch_profile t a)
    let e : ProbeEntry = record { live = live; at = t; for_gen = rec.gen }
    modify (set_probe rec.name e)
    pure live

  -- probeCred
  unfoldable pub probe_cred : Record → M Bool
  probe_cred rec = do
    t ← now env
    cached ← gets (λ s. fresh_probe env.probe_ttl t rec.gen (lookup rec.name s.probe))
    match_option cached (probe_upstream t rec) pure

  -- confirmAuthFailure
  unfoldable pub confirm_auth_failure : String → M Bool
  confirm_auth_failure token = do
    done ← draw env.cancelled
    wait env none
    when done then pure false else do
      t ← now env
      a ← upstream env none (get_profile token)
      pure (auth_failed (fetch_profile t a))

  unfoldable pub reclaim_answered : Record → Refreshed → M (Unit {0})
  reclaim_answered rec (refused e) =
      when e.permanent then (do gone ← mark_dead env rec e; commit env gone; pure tt) else pure tt
  reclaim_answered rec (granted g) = do nr ← apply_refresh env rec g; commit env nr; pure tt

  unfoldable pub reclaim_suspect : Record → M (Unit {0})
  reclaim_suspect rec =
      when is_state suspect rec
      then (do
        a ← upstream env (some rec.name) (refresh_grant (refresh_token rec))
        reclaim_answered rec (refresh a))
      else pure tt

  -- reclaim
  unfoldable pub reclaim : String → M (Unit {0})
  reclaim name = do lock env; with_record name (pure tt) reclaim_suspect

  -- pollOne of a dead credential
  unfoldable pub poll_dead : String → ℕ → Record → M (Unit {0})
  poll_dead name t rec = do
    last ← gets (λ s. time_of (lookup name s.dead_probe))
    when ltb t (last + env.dead_probe_interval) then pure tt else do
      modify (set_dead_probe name t)
      a ← upstream env none (get_profile (access_token rec))
      when succeeded (fetch_profile t a)
          then (do transition_health name ok rec.gen; pure tt)
          else pure tt

  -- The switch of pollOne on the profile's answer.
  unfoldable pub judge : String → ℕ → Record → Fetched (Dict Value) → M (Unit {0})
  judge name t rec acct =
      when auth_failed acct && ltb_ℤ (pos t) (expires_at_ms rec)
      then (when is_state suspect rec then pure tt else do
        confirmed ← confirm_auth_failure (access_token rec)
        when confirmed then (do transition_health name suspect rec.gen; pure tt) else pure tt)
      else when succeeded acct && is_state suspect rec
      then (do transition_health name ok rec.gen; pure tt)
      else pure tt

  -- The last-resort refresh of a credential that has been suspect for long.
  unfoldable pub reclaim_due : ℕ → String → M (Unit {0})
  reclaim_due t name = with_record name (pure tt) λ cur.
      when is_state suspect cur && leb (cur.health_since + env.reclaim_delay) t
      then reclaim name
      else pure tt

  -- pollOne of a credential that is not dead, up to the reclaim
  unfoldable pub observe : String → ℕ → Record → M (Unit {0})
  observe name t rec = do
    ua ← upstream env none (get_usage (access_token rec))
    pa ← upstream env none (get_profile (access_token rec))
    record_usage name (fetch_usage env.reset_time ua) (fetch_profile t pa)
    judge name t rec (fetch_profile t pa)

  -- pollOne of a credential that is not dead
  unfoldable pub poll_live : String → ℕ → Record → M (Unit {0})
  poll_live name t rec = do observe name t rec; reclaim_due t name

  unfoldable pub poll_found : String → Record → M (Unit {0})
  poll_found name rec = do
    t ← now env
    when is_state dead rec then poll_dead name t rec else poll_live name t rec

  -- pollOne
  unfoldable pub poll_one : String → M (Unit {0})
  poll_one name = with_record name (pure tt) (poll_found name)

  unfoldable pub poll_each : List Record → M (Unit {0})
  poll_each [] = pure tt
  poll_each (rec ∷ rest) = poll_one rec.name >> poll_each rest

  -- poll
  unfoldable pub poll : M (Unit {0})
  poll = do recs ← gets (λ s. Store.list s.store); poll_each recs
