-- ===== src/Server/Examples/Health.antt =====
-- Refusals, refreshes and suspicion.
use ccbroker.Anthropic.{fetch_usage, RefreshError, auth_failure, fetch_profile, refresh_grant}
use ccbroker.Base.{
  none, Dict, [], false, if◌then◌else◌, insert, lookup, not, refl, some, true, ◌&&◌, ◌∷◌, ◌≡◌, ◌⊎◌,
}
use ccbroker.Creds.{
  Record, access_token, dead, expires_at_ms, health, ok, refresh_token, same_health, suspect,
}
use ccbroker.Json.{text_at, to_int}
use ccbroker.Server.Examples.{broker, quiet_env, work}
use ccbroker.Server.Gen.{commit, cred_state, next_gen, publish, put, stored, wake, with_record}
use ccbroker.Server.Health.{
  auth_failed, change_health, confirm_auth_failure, entry_after, is_state, judge, observe,
  record_usage, set_usage, moved, poll_one, succeeded, transition_health,
}
use ccbroker.Server.Health.Recovery.{due, poll_one-revives, taken, Turns}
use ccbroker.Server.Health.Suspicion.{Confirmed, first_answer, observe-Confirmed}
use ccbroker.Server.Refresh.{
  backing_off, is_ok, mark_dead, needs_refresh, refresh_locked, refresh_refused,
}
use ccbroker.Server.Refresh.Outcomes.{refresh_locked-sent}
use ccbroker.Server.State.{
  Broker, Env, draw, gets, lock, match_option, modify, now, pure, upstream, wait, when◌then◌else◌,
  ◌>>=◌,
}
use ccbroker.Store.{Store, save}
use ccbroker.Store

-- The record that two rejections of its token leave.
abbrev suspect_work : Record
suspect_work = record work {
  health_state = suspect;
  health_since = 1007;
  gen = 1008;
  updated_at = 1009;
}

abbrev rejecting : Env
rejecting = record quiet_env {
  answer = λ i req. some (record { status = 401; body = ""; json = none });
}

work-suspect :
    Store.get "work" (observe rejecting "work" 1000 work broker).1.store ≡ some suspect_work
unfolding observe record_usage entry_after set_usage fetch_usage judge auth_failed auth_failure
    expires_at_ms to_int health same_health confirm_auth_failure wait upstream access_token text_at
    fetch_profile transition_health lock with_record match_option change_health moved succeeded
    commit stored gets Store.get lookup now ◌>>=◌ draw pure when◌then◌else◌ put Store.put Store.save
    insert next_gen publish modify wake cred_state
work-suspect = refl

observe-Confirmed_example :
    (Store.get "work" broker.store ≡ some suspect_work)
    ⊎ Confirmed rejecting 1 1000 work (first_answer rejecting 1000 work broker)
observe-Confirmed_example =
    observe-Confirmed rejecting "work" 1000 work suspect_work broker (λ i s. refl) work-suspect refl

refresh_locked-sent_example : (refresh_locked quiet_env work broker).1.sent ≡ (
    if is_ok work
      && needs_refresh quiet_env 1000 work
      && not (backing_off 1001 (lookup "work" broker.backoff))
    then refresh_grant (refresh_token work) ∷ []
    else [])
refresh_locked-sent_example = refresh_locked-sent quiet_env work broker

abbrev void_token : RefreshError
void_token = record { status = 400; code = "invalid_grant"; body = ""; permanent = true }

abbrev no_network : RefreshError
no_network = record { status = 0; code = ""; body = "timeout"; permanent = false }

abbrev dead_work : Record
dead_work = record work {
  health_state = dead;
  health_since = 1000;
  last_error = "refresh";
  gen = 1001;
  updated_at = 1002;
}

work-dead :
    Store.get "work" (refresh_refused quiet_env work void_token broker).1.store ≡ some dead_work
unfolding refresh_refused mark_dead commit stored gets Store.get lookup now ◌>>=◌ draw pure
    when◌then◌else◌ put Store.put Store.save insert next_gen publish modify wake cred_state
work-dead = refl

-- The disk is full.
abbrev failing_env : Env
failing_env = record quiet_env { saves = λ i. false }

-- A broker whose credential is dead, and which probes it again after half a second.
abbrev prober : Env
prober = record quiet_env { dead_probe_interval = 500 }

abbrev dead_records : Dict Record
dead_records = ("work", dead_work) ∷ []

abbrev mourning : Broker
mourning = record broker { store = record { data_map = dead_records; disk = dead_records } }

dead_work-there : Store.get "work" mourning.store ≡ some dead_work
unfolding Store.get lookup
dead_work-there = refl

dead_work-dead : is_state dead dead_work ≡ true
unfolding health same_health
dead_work-dead = refl

work-due : due prober "work" mourning ≡ true
unfolding lookup
work-due = refl

poll_one-revives_example :
    (due prober "work" mourning && taken prober dead_work mourning ≡ true
      → Turns ok dead_work (Store.get "work" (poll_one prober "work" mourning).1.store))
    × (due prober "work" mourning && taken prober dead_work mourning ≡ false
        → (poll_one prober "work" mourning).1.store ≡ mourning.store)
poll_one-revives_example =
    poll_one-revives prober "work" dead_work mourning (λ i s. refl) dead_work-there refl
      dead_work-dead

abbrev suspect_records : Dict Record
suspect_records = ("work", suspect_work) ∷ []

abbrev doubting : Broker
doubting = record broker { store = record { data_map = suspect_records; disk = suspect_records } }
