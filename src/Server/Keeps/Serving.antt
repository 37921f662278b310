-- ===== src/Server/Keeps/Serving.antt =====
-- GET of a credential (Server/GetCred.antt) keeps what `Guards` guards.
use ccbroker.Base.{ℕ, String, Bool, Option, none, some, List, ℤ}
use ccbroker.Creds.{Record}
use ccbroker.Config.{Client}
use ccbroker.Server.State.{Env}
use ccbroker.Server.Gen.{await_wake, wait_for_gen}
use ccbroker.Server.Refresh.{Failure, not_exist, in_backoff, save_failed, refresh_failed, Outcome}
use ccbroker.Server.GetCred.{
  CredRequest, serve, serve_probed, serve_snapshot, no_record, answer_fresh, get_fresh, long_poll,
  get_as, handle_get_cred,
}
use ccbroker.Server.Keeps.{Keeps, Shared, Holds, Guards, guard_rules, Keeps-modify, Keeps-bind}
use ccbroker.Server.Keeps.Refreshing.{ensure_fresh-Keeps}
use ccbroker.Server.Keeps.Polling.{transition_health-Keeps, probe_cred-Keeps}

module _ {env : Env} {Q : Shared} {G : List String → Type 0} (k : Guards env Q G) where
  await_wake-Keeps :
      (name : String) (cur channel : ℕ) → Keeps (Holds Q) (await_wake env name cur channel)
  unfolding await_wake
  await_wake-Keeps name cur channel = search guard_rules depth 14

  wait_for_gen-Keeps : (name : String) (since : ℤ) → Keeps (Holds Q) (wait_for_gen env name since)
  unfolding wait_for_gen
  wait_for_gen-Keeps name since =
      Keeps-bind _ _ (Keeps-modify _ (λ s h. k.made name s h))
        (λ _. search (guard_rules, await_wake-Keeps) depth 14)

  serve-Keeps :
      (rec : Record) (b : Bool) (live : Option Bool) → Keeps (Holds Q) (serve env rec b live)
  unfolding serve
  serve-Keeps rec b live = search guard_rules depth 14

  serve_snapshot-Keeps :
      (probe : Bool) (name : String) (rec : Record)
      → Keeps (Holds Q) (serve_snapshot env probe name rec)
  unfolding serve_snapshot serve_probed
  serve_snapshot-Keeps probe name rec =
      search (guard_rules, serve-Keeps, probe_cred-Keeps, transition_health-Keeps) depth 14

  no_record-Keeps : (e : Option Failure) → Keeps (Holds Q) (no_record env e)
  unfolding no_record
  no_record-Keeps (some not_exist) = search guard_rules
  no_record-Keeps (some in_backoff) = search guard_rules
  no_record-Keeps (some save_failed) = search guard_rules
  no_record-Keeps (some (refresh_failed e)) = search guard_rules
  no_record-Keeps none = search guard_rules

  answer_fresh-Keeps :
      (probe : Bool) (name : String) (o : Outcome) → Keeps (Holds Q) (answer_fresh env probe name o)
  unfolding answer_fresh
  answer_fresh-Keeps probe name (none, e) = no_record-Keeps e
  answer_fresh-Keeps probe name (some rec, e) = serve_snapshot-Keeps probe name rec

  get_fresh-Keeps : (probe : Bool) (name : String) → Keeps (Holds Q) (get_fresh env probe name)
  unfolding get_fresh
  get_fresh-Keeps probe name = search (guard_rules, ensure_fresh-Keeps, answer_fresh-Keeps) depth 14

  long_poll-Keeps : (req : CredRequest) (name : String) → Keeps (Holds Q) (long_poll env req name)
  unfolding long_poll
  long_poll-Keeps req name = search (guard_rules, wait_for_gen-Keeps, get_fresh-Keeps) depth 14

  get_as-Keeps :
      (req : CredRequest) (name : String) (c : Client) → Keeps (Holds Q) (get_as env req name c)
  unfolding get_as
  get_as-Keeps req name c = search (guard_rules, long_poll-Keeps, get_fresh-Keeps) depth 14

  pub handle_get_cred-Keeps : (req : CredRequest) → Keeps (Holds Q) (handle_get_cred env req)
  unfolding handle_get_cred
  handle_get_cred-Keeps req = search (guard_rules, get_as-Keeps) depth 14
