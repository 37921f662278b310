-- ===== src/Ccb/Policy.antt =====
-- `ccb policy` (cmd/ccb/main.go: runPolicy, with LoadAgent of the configuration file). What is printed
-- is the result, and the texts of the errors are left out.
use ccbroker.Base.{
  String, ◌==◌, Bool, ◌||◌, Option, none, some, List, [], ◌∷◌, Dict, insert, erase, pure, ◌>>=◌,
  match_option, when◌then◌else◌, if◌then◌else◌, not,
}
use ccbroker.Json.{Decimal, Value, object, text, of_dict}
use ccbroker.Config.AgentFile.{Url, Agent, effective_policy, load_agent}
use ccbroker.Config.AgentJson.{unmarshal_agent}
use ccbroker.Ccb.State.{Content, document, World, Act, read_file, write_file}
use ccbroker.Ccb.Local.{expand_home, whole}
use ccbroker.Ccb.Identity.{Decoded, decoded, nil_map, not_json, decode_settings}

-- Where the policy in effect comes from.
pub data Origin : Type 0 where
  by_default from_policy from_auto : Origin

-- `missing` is the error that there is no file, `usage` the one about the arguments, and `crashed` a
-- panic.
pub data Outcome : Type 0 where
  shown : String → Decimal → Origin → Outcome
  set : String → Outcome
  missing failed usage crashed : Outcome

abbrev policy_origin : Agent → Origin
policy_origin a =
    if not (a.auto_policy == "") then from_policy else if a.auto then from_auto else by_default

-- The policies that can be set.
abbrev pub settable : String → Bool
settable v = v == "manual" || v == "account" || v == "all"

-- The document with the new policy.
unfoldable pub set_policy : String → Dict Value → Dict Value
set_policy v m = erase "auto" (insert "autoPolicy" (text v) m)

module _ (parse_url : String → Option Url) where
  abbrev loaded : Option Agent → Option Agent
  loaded none = none
  loaded (some a) = load_agent parse_url a

  abbrev loaded_value : Option Value → Option Agent
  loaded_value none = none
  loaded_value (some v) = loaded (unmarshal_agent v)

  -- LoadAgent, of what was read
  unfoldable pub load_content : Content → Option Agent
  load_content c = loaded_value (whole (some c))

  module _ (w : World) where
    abbrev show : Option Agent → Outcome
    show none = failed
    show (some a) = shown (effective_policy a) a.auto_threshold (policy_origin a)

    abbrev show_read : Option Content → Outcome
    show_read none = missing
    show_read (some c) = show (load_content c)

    abbrev write_policy : String → String → Decoded → Act Outcome
    write_policy p v not_json = pure failed
    write_policy p v nil_map = pure crashed
    write_policy p v (decoded m) = do
      done ← write_file w p (document (object (of_dict (set_policy v m))))
      when done then pure (set v) else pure failed

    -- runPolicy, with one argument
    unfoldable pub change_policy : String → String → Act Outcome
    change_policy p v = when not (settable v) then pure usage else (do
      got ← read_file w p
      match_option got (pure failed) λ found.
          match_option found (pure missing) λ c. write_policy p v (decode_settings (some c)))

    -- runPolicy
    unfoldable pub run_policy : String → List String → Act Outcome
    run_policy path [] = do
      got ← read_file w (expand_home w path)
      match_option got (pure failed) λ found. pure (show_read found)
    run_policy path (v ∷ []) = change_policy (expand_home w path) v
    run_policy path (v ∷ v' ∷ vs) = pure usage
