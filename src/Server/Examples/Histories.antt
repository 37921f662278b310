-- ===== src/Server/Examples/Histories.antt =====
-- A history of calls: a GET, a poll and a refresh round.
use ccbroker.Base.{
  List, String, [], ap, arith, eq_iff, erase, has_separator, length, lookup, refl, some,
  strip_prefix, sym, trim_space, ◌*ℤ◌, ◌-ℤ◌, ◌∷◌, ◌≡◌, ◌≤◌,
}
use ccbroker.Creds.{Record, expires_at_ms, health, same_health, served_oauth}
use ccbroker.Json.{to_int}
use ccbroker.Server.Access.{auth_client, client_of, has_hash, scopes_allow}
use ccbroker.Server.Calls.{Call, get_cred, poll_tick, refresh_tick, run, step}
use ccbroker.Server.Calls.Growing.{Grown, StillThere, WokenSince, run-record_grows, run-woken}
use ccbroker.Server.Calls.Stored.{EveryRecord, Named, RingBounded, run-RingBounded}
use ccbroker.Server.Calls.Versions.{Announced, Detects, NeverAhead, run-announced, run-detects}
use ccbroker.Server.Examples.{broker, get_work, quiet-Rely, quiet_env, work}
use ccbroker.Server.Gen.{cred_state, stored, with_record}
use ccbroker.Server.GetCred.{
  answer_fresh, asks_to_wait, cred_name, get_as, get_fresh, handle_get_cred, serve, serve_snapshot,
}
use ccbroker.Server.Keeps.{Holds}
use ccbroker.Server.Refresh.{ensure_fresh, leave_alone, needs_refresh}
use ccbroker.Server.State.{draw, gets, match_option, now, pure, when◌then◌else◌, ◌>>=◌}
use ccbroker.Store.{Store}
use ccbroker.Store

abbrev calls : List Call
calls = get_cred get_work ∷ poll_tick ∷ refresh_tick ∷ []

abbrev served_only : List Call
served_only = get_cred get_work ∷ []

work-stored : Store.get "work" broker.store ≡ some work
unfolding Store.get lookup
work-stored = refl

work-served : Store.get "work" (run quiet_env served_only broker).store ≡ some work
unfolding run step handle_get_cred match_option auth_client strip_prefix trim_space client_of
    has_hash get_as when◌then◌else◌ cred_name has_separator scopes_allow asks_to_wait get_fresh
    ◌>>=◌ answer_fresh ensure_fresh with_record stored gets Store.get lookup pure leave_alone health
    same_health now draw needs_refresh expires_at_ms ◌-ℤ◌ ◌*ℤ◌ to_int serve_snapshot serve
    served_oauth erase
work-served = refl

version-same : (run quiet_env served_only broker).store_ver ≡ 0
unfolding run step handle_get_cred match_option auth_client strip_prefix trim_space client_of
    has_hash get_as when◌then◌else◌ cred_name has_separator scopes_allow asks_to_wait get_fresh
    ◌>>=◌ answer_fresh ensure_fresh with_record stored gets Store.get lookup pure leave_alone health
    same_health now draw needs_refresh expires_at_ms ◌-ℤ◌ ◌*ℤ◌ to_int serve_snapshot serve
    served_oauth erase
version-same = refl

only_work :
    (name : String) (r : Record)
    → Store.get name broker.store ≡ some r
    → (name ≡ "work") × (r ≡ work)
unfolding Store.get lookup
only_work name r e = ground (arith, eq_iff "work" name)

run-record_grows_example : StillThere work (Store.get "work" (run quiet_env calls broker).store)
run-record_grows_example =
    run-record_grows quiet_env broker (quiet-Rely (Grown broker)) calls (tt, (tt, (tt, tt))) "work"
      work work-stored

run-woken_example :
    (0 ≤ (run quiet_env calls broker).store_ver)
    × WokenSince (cred_state "work" broker) (cred_state "work" (run quiet_env calls broker))
run-woken_example =
    run-woken quiet_env broker (quiet-Rely (Grown broker)) calls (tt, (tt, (tt, tt))) "work"

broker-NeverAhead : Holds NeverAhead broker
unfolding Store.get lookup
broker-NeverAhead name = ground (arith, eq_iff "work" name)

broker-Announced : Holds Announced broker
unfolding Store.get lookup
broker-Announced name r e =
    ground (arith, eq_iff "work" name, ap (λ x. x.gen) (only_work name r e).1)

run-announced_example : (cred_state "work" (run quiet_env served_only broker)).gen ≡ 5
run-announced_example =
    run-announced quiet_env served_only broker (λ i. refl) (quiet-Rely Announced) broker-Announced
      "work" work work-served

run-detects_example :
    Store.get "work" (run quiet_env served_only broker).store ≡ Store.get "work" broker.store
run-detects_example =
    run-detects quiet_env served_only broker (λ i. refl) (quiet-Rely (Detects broker)) (tt, tt)
      version-same "work"

broker-RingBounded : Holds (EveryRecord RingBounded) broker
broker-RingBounded name r e = rw (only_work name r e).1 (omega arith)

run-RingBounded_example : length work.retired_hashes ≤ 8
run-RingBounded_example =
    run-RingBounded quiet_env (quiet-Rely (EveryRecord RingBounded)) served_only broker
      broker-RingBounded "work" work work-served

broker-Named : Holds (EveryRecord Named) broker
broker-Named name r e = rw (only_work name r e).1 (sym (only_work name r e).0)
