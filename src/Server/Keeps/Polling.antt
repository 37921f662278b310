-- ===== src/Server/Keeps/Polling.antt =====
-- The health of the credentials (Server/Health.antt) keeps what `Guards` guards.
use ccbroker.Base.{ℕ, String, List, [], ◌∷◌, Dict}
use ccbroker.Json.{Value}
use ccbroker.Creds.{Record, HealthState}
use ccbroker.Anthropic.{Refreshed, granted, refused, Fetched, fetched, failed, Usage}
use ccbroker.Server.State.{UsageEntry, ProbeEntry, Env, modify}
use ccbroker.Server.Health.{
  observe, set_usage, set_probe, set_dead_probe, change_health, transition_health, entry_after,
  record_usage, probe_upstream, probe_cred, confirm_auth_failure, reclaim_answered, reclaim_suspect,
  reclaim, poll_dead, moved, judge, reclaim_due, poll_live, poll_found, poll_one, poll_each, poll,
}
use ccbroker.Server.Keeps.{Keeps, Shared, Holds, Guards, guard_rules, Keeps-modify, Keeps-bind}
use ccbroker.Server.Keeps.Refreshing.{Keeps-applied, Keeps-marked}

module _ {env : Env} {Q : Shared} {G : List String → Type 0} (k : Guards env Q G) where
  change_health-Keeps :
      (state : HealthState) (gen : ℕ) (rec : Record)
      → G rec.retired_hashes
      → Keeps (Holds Q) (change_health env state gen rec)
  unfolding change_health moved
  change_health-Keeps state gen rec h = search guard_rules depth 14

  pub transition_health-Keeps :
      (name : String) (state : HealthState) (gen : ℕ)
      → Keeps (Holds Q) (transition_health env name state gen)
  unfolding transition_health
  transition_health-Keeps name state gen = search (guard_rules, change_health-Keeps) depth 14

  usage_set : (name : String) (e : UsageEntry) → Keeps (Holds Q) (modify (set_usage name e))
  unfolding set_usage
  usage_set name e = Keeps-modify _ (λ s h. h)

  probe_set : (name : String) (e : ProbeEntry) → Keeps (Holds Q) (modify (set_probe name e))
  unfolding set_probe
  probe_set name e = Keeps-modify _ (λ s h. h)

  dead_probe_set : (name : String) (t : ℕ) → Keeps (Holds Q) (modify (set_dead_probe name t))
  unfolding set_dead_probe
  dead_probe_set name t = Keeps-modify _ (λ s h. h)

  record_usage-Keeps :
      (name : String) (u : Fetched Usage) (acct : Fetched (Dict Value))
      → Keeps (Holds Q) (record_usage env name u acct)
  unfolding record_usage entry_after
  record_usage-Keeps name (fetched u) acct = search (guard_rules, usage_set) depth 14
  record_usage-Keeps name (failed e) acct = search (guard_rules, usage_set) depth 14

  pub probe_cred-Keeps : (rec : Record) → Keeps (Holds Q) (probe_cred env rec)
  unfolding probe_cred probe_upstream
  probe_cred-Keeps rec = search (guard_rules, probe_set) depth 14

  confirm-Keeps : (token : String) → Keeps (Holds Q) (confirm_auth_failure env token)
  unfolding confirm_auth_failure
  confirm-Keeps token = search guard_rules depth 14

  reclaim_answered-Keeps :
      (rec : Record) (r : Refreshed)
      → G rec.retired_hashes
      → Keeps (Holds Q) (reclaim_answered env rec r)
  unfolding reclaim_answered
  reclaim_answered-Keeps rec (refused e) h = search (guard_rules, Keeps-marked) depth 14
  reclaim_answered-Keeps rec (granted g) h = search (guard_rules, Keeps-applied) depth 14

  reclaim_suspect-Keeps :
      (rec : Record) → G rec.retired_hashes → Keeps (Holds Q) (reclaim_suspect env rec)
  unfolding reclaim_suspect
  reclaim_suspect-Keeps rec h = search (guard_rules, reclaim_answered-Keeps) depth 14

  reclaim-Keeps : (name : String) → Keeps (Holds Q) (reclaim env name)
  unfolding reclaim
  reclaim-Keeps name = search (guard_rules, reclaim_suspect-Keeps) depth 14

  poll_dead-Keeps :
      (name : String) (t : ℕ) (rec : Record) → Keeps (Holds Q) (poll_dead env name t rec)
  unfolding poll_dead
  poll_dead-Keeps name t rec =
      search (guard_rules, dead_probe_set, transition_health-Keeps) depth 14

  judge-Keeps :
      (name : String) (t : ℕ) (rec : Record) (acct : Fetched (Dict Value))
      → Keeps (Holds Q) (judge env name t rec acct)
  unfolding judge
  judge-Keeps name t rec acct =
      search (guard_rules, confirm-Keeps, transition_health-Keeps) depth 14

  reclaim_due-Keeps : (t : ℕ) (name : String) → Keeps (Holds Q) (reclaim_due env t name)
  unfolding reclaim_due
  reclaim_due-Keeps t name = search (guard_rules, reclaim-Keeps) depth 14

  poll_live-Keeps :
      (name : String) (t : ℕ) (rec : Record) → Keeps (Holds Q) (poll_live env name t rec)
  unfolding poll_live observe
  poll_live-Keeps name t rec =
      search (guard_rules, record_usage-Keeps, judge-Keeps, reclaim_due-Keeps) depth 14

  poll_one-Keeps : (name : String) → Keeps (Holds Q) (poll_one env name)
  unfolding poll_one poll_found
  poll_one-Keeps name = search (guard_rules, poll_dead-Keeps, poll_live-Keeps) depth 14

  poll_each-Keeps : (recs : List Record) → Keeps (Holds Q) (poll_each env recs)
  unfolding poll_each
  poll_each-Keeps [] = search guard_rules
  poll_each-Keeps (rec ∷ rest) =
      Keeps-bind _ _ (poll_one-Keeps rec.name) (λ _. poll_each-Keeps rest)

  pub poll-Keeps : Keeps (Holds Q) (poll env)
  unfolding poll
  poll-Keeps = search (guard_rules, poll_each-Keeps)
