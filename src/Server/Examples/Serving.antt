-- ===== src/Server/Examples/Serving.antt =====
-- The credential that a GET serves.
use ccbroker.Base.{
  erase, false, has_separator, lookup, none, refl, some, strip_prefix, trim_space, true, ◌*ℤ◌, ◌-ℤ◌,
  ◌≡◌,
}
use ccbroker.Config.{Client}
use ccbroker.Creds.{expires_at_ms, health, same_health, served_oauth}
use ccbroker.Json.{to_int}
use ccbroker.Server.Access.{auth_client, client_of, has_hash, scope_allows, scopes_allow}
use ccbroker.Server.Examples.{broker, get_work, quiet_env, work_envelope}
use ccbroker.Server.Gen.{stored, with_record}
use ccbroker.Server.GetCred.{
  answer_fresh, asks_to_wait, cred_name, get_as, get_fresh, handle_get_cred, serve, serve_snapshot,
  served,
}
use ccbroker.Server.GetCred.Served.{Shows, get_cred-quarantine, get_cred-served}
use ccbroker.Server.Refresh.{ensure_fresh, leave_alone, needs_refresh}
use ccbroker.Server.State.{draw, gets, match_option, now, pure, when◌then◌else◌, ◌>>=◌}
use ccbroker.Store.{Store}
use ccbroker.Store

get_work-served : (handle_get_cred quiet_env get_work broker).0 ≡ served work_envelope
unfolding handle_get_cred match_option auth_client strip_prefix trim_space client_of has_hash get_as
    when◌then◌else◌ cred_name has_separator scopes_allow asks_to_wait get_fresh ◌>>=◌ answer_fresh
    ensure_fresh with_record stored gets Store.get lookup pure leave_alone health same_health now
    draw needs_refresh expires_at_ms ◌-ℤ◌ ◌*ℤ◌ to_int serve_snapshot serve served_oauth erase
get_work-served = refl

get_cred-served_example :
    (client : Client) × (auth_client quiet_env "Bearer tok" ≡ some client)
    × (scope_allows client (cred_name "/v1/credentials/work") ≡ true)
    × Shows quiet_env "work" false broker work_envelope
        (handle_get_cred quiet_env get_work broker).1
unfolding cred_name asks_to_wait strip_prefix
get_cred-served_example = get_cred-served quiet_env get_work broker work_envelope get_work-served

get_cred-quarantine_example : lookup "refreshToken" work_envelope.oauth ≡ none
get_cred-quarantine_example =
    get_cred-quarantine quiet_env get_work broker work_envelope refl get_work-served
