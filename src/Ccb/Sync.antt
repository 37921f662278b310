-- ===== src/Ccb/Sync.antt =====
-- One cycle of the client (cmd/ccb/main.go: syncTarget, syncAll, writeStatusCache, syncCycle). A
-- target's result is whether it is to be tried again; `none` is a panic, which ends the program.
use ccbroker.Base.{
  ℕ, suc, String, ◌==◌, Bool, true, false, not, ◌&&◌, Option, none, some, List, [], ◌∷◌, Dict,
  lookup, insert, if◌then◌else◌, pure, ◌>>=◌, ◌>>◌, match_option, when◌then◌else◌,
}
use ccbroker.Json.{Value}
use ccbroker.Config.AgentFile.{Target, Agent, effective_policy}
use ccbroker.Ccb.Gate.{overwrite_decision, transient_reason}
use ccbroker.Ccb.State.{World, Act, UsageRow, elapse, now}
use ccbroker.Ccb.Local.{oauth_str, strip_refresh_token, read_local_oauth, write_if_unchanged}
use ccbroker.Ccb.Broker.{
  OfferResult, Envelope, not_offered, offer_cred, get_cred_envelope, fetch_usage_rows,
}
use ccbroker.Ccb.Rotate.{resolve_cred, auto_select}
use ccbroker.Ccb.Identity.{Identity, panicked, claude_json_for_target, sync_identity}

-- hasRT
unfoldable pub has_rt : Option (Dict Value) → Bool
has_rt local = not (oauth_str local "refreshToken" == "")

abbrev after_identity : Identity → Option Bool
after_identity panicked = none
after_identity _ = some false

abbrev pub account_of : Option UsageRow → Option (Dict Value)
account_of none = none
account_of (some row) = row.oauth_account

module _ (w : World) where
  -- The offer of the local credential, if it has a refresh token.
  unfoldable pub offer_local : Option (Dict Value) → Act OfferResult
  offer_local none = pure (not_offered "")
  offer_local (some d) = when has_rt (some d) then offer_cred w d else pure (not_offered "")

  unfoldable pub show_account : Target → Option (Dict Value) → Act (Option Bool)
  show_account t none = pure (some false)
  show_account t (some acct) = when claude_json_for_target w t == "" then pure (some false) else (do
    outcome ← sync_identity w (claude_json_for_target w t) acct
    pure (after_identity outcome))

  -- After the gate: the write, and the identity.
  unfoldable pub overwrite :
      Target → Dict UsageRow → Option (Dict Value) → String → Envelope → Act (Option Bool)
  overwrite t by_name local name env = do
    wrote ← write_if_unchanged w t local (strip_refresh_token env.oauth)
    match_option wrote (pure (some true)) λ done.
        when done then show_account t (account_of (lookup name by_name)) else pure (some true)

  unfoldable pub gate :
      Target
      → Dict UsageRow
      → Option (Dict Value)
      → OfferResult
      → String
      → Envelope
      → Act (Option Bool)
  gate t by_name local res name env =
      when overwrite_decision (has_rt local) res.adopted res.reason env.probe_live
      then overwrite t by_name local name env
      else pure (some (transient_reason res.reason))

  unfoldable pub sync_offered :
      Target → Dict UsageRow → Option (Dict Value) → OfferResult → Act (Option Bool)
  sync_offered t by_name local res = do
    found ← resolve_cred w t.cred
    match_option found (pure (some true)) λ name. (do
      env ← get_cred_envelope w name (has_rt local && res.reason == "offer_not_live")
      match_option env (pure (some true)) λ e. gate t by_name local res name e)

  -- syncTarget
  unfoldable pub sync_target : Target → Dict UsageRow → Act (Option Bool)
  sync_target t by_name = do
    got ← read_local_oauth w t
    match_option got (pure (some true))
        λ local. (do res ← offer_local local; sync_offered t by_name local res)

  abbrev count_fail : Bool → Option ℕ → Option ℕ
  count_fail fail none = none
  count_fail fail (some n) = some (if fail then suc n else n)

  unfoldable pub sync_each : Dict UsageRow → List Target → Act (Option ℕ)
  sync_each by_name [] = pure (some 0)
  sync_each by_name (t ∷ ts) = do
    got ← sync_target t by_name
    match_option got (pure none)
        λ fail. (do rest ← sync_each by_name ts; pure (count_fail fail rest))

  abbrev pub rows_by_name : Dict UsageRow → List UsageRow → Dict UsageRow
  rows_by_name d [] = d
  rows_by_name d (r ∷ rs) = rows_by_name (insert r.name r d) rs

  -- syncAll
  unfoldable pub sync_all : Agent → List UsageRow → Act (Option ℕ)
  sync_all cfg rows = sync_each (rows_by_name [] rows) cfg.targets

  -- writeStatusCache, whose write error is ignored
  unfoldable pub write_status_cache : List UsageRow → Act (Unit {0})
  write_status_cache rows s =
      let (t, s1) = now w s in
      let s2 = elapse w s1 in
      (tt, if w.writes s1.asked then record s2 { status_cache = some (t, rows) } else s2)

  abbrev policy_of : Agent → Bool → String
  policy_of cfg force_auto =
      if force_auto && effective_policy cfg == "manual" then "account" else effective_policy cfg

  unfoldable pub rotate : Agent → Bool → List UsageRow → Act (Unit {0})
  rotate cfg force_auto rows =
      when policy_of cfg force_auto == "manual"
      then pure tt
      else (do auto_select w cfg rows (policy_of cfg force_auto); pure tt)

  abbrev rows_or_none : Option (List UsageRow) → List UsageRow
  rows_or_none none = []
  rows_or_none (some rows) = rows

  -- syncCycle
  unfoldable pub sync_cycle : Agent → Bool → Act (Option ℕ)
  sync_cycle cfg force_auto = do
    got ← fetch_usage_rows w
    match_option got (pure tt) λ rows. (do rotate cfg force_auto rows; write_status_cache rows)
    sync_all cfg (rows_or_none got)
