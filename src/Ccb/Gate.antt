-- ===== src/Ccb/Gate.antt =====
-- The overwrite gate of cmd/ccb/main.go (overwriteDecision, transientReason).
use ccbroker.Base.{String, ◌==◌, Bool, true, false, not, ◌||◌, if◌then◌else◌}

-- A reason after which the local token is known not to be a new lineage.
abbrev pub settled : String → Bool
settled reason = reason == "already_current" || reason == "rollback"

-- overwriteDecision
unfoldable pub overwrite_decision : Bool → Bool → String → Bool → Bool
overwrite_decision has_local_rt adopted reason probe_live =
    if not has_local_rt
    then true
    else if adopted
    then true
    else if settled reason
    then true
    else if reason == "offer_not_live"
    then probe_live
    else false

-- transientReason
unfoldable pub transient_reason : String → Bool
transient_reason reason = not (reason == "unknown_account" || reason == "ambiguous_account")
