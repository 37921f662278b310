-- ===== src/Ccb/Identity.antt =====
-- The account that Claude Code shows (cmd/ccb/main.go: claudeJSONForTarget, syncIdentity).
use ccbroker.Base.{
  String, ◌==◌, Bool, true, false, Option, none, some, [], Dict, lookup, insert, if◌then◌else◌,
  pure, ◌>>=◌, match_option, when◌then◌else◌,
}
use ccbroker.Json.{Value, object, boolean, null, to_dict, of_dict, text_at}
use ccbroker.Config.AgentFile.{Target}
use ccbroker.Ccb.State.{Content, document, World, Act, read_file, write_file}
use ccbroker.Ccb.Local.{first_value, has, as_map, expand_home}

-- `panicked`: an assignment to a nil map.
pub data Identity : Type 0 where
  unchanged changed unreadable unwritten panicked : Identity

-- The map that the file is decoded into.
pub data Decoded : Type 0 where
  decoded : Dict Value → Decoded
  nil_map not_json : Decoded

abbrev pub decode_value : Option Value → Decoded
decode_value (some (object fs)) = decoded (to_dict fs)
decode_value (some null) = nil_map
decode_value _ = not_json

unfoldable pub decode_settings : Option Content → Decoded
decode_settings none = decoded []
decode_settings (some c) = decode_value (first_value (some c))

abbrev email_in : Option (Dict Value) → Option String
email_in none = none
email_in (some d) = some (text_at d "emailAddress")

-- the recorded email, if there is an account
unfoldable pub recorded_email : Dict Value → Option String
recorded_email m = email_in (as_map (lookup "oauthAccount" m))

abbrev pub is_email : Option String → String → Bool
is_email none email = false
is_email (some e) email = e == email

-- The document with the account, and the onboarding that is set where it is missing.
unfoldable pub with_account : Dict Value → Dict Value → Dict Value
with_account m acct =
    insert "oauthAccount" (object (of_dict acct)) (
      if has "hasCompletedOnboarding" m
      then m
      else insert "hasCompletedOnboarding" (boolean true) m)

module _ (w : World) where
  -- filepath.Dir(p) decides which file it is.
  abbrev beside : String → String → String
  beside home p =
      if p == ""
      then ""
      else if w.dir_path p == w.join_path home ".claude"
      then w.join_path home ".claude.json"
      else w.join_path (w.dir_path p) ".claude.json"

  abbrev in_home : Target → Option String → String
  in_home t none = ""
  in_home t (some home) =
      if t.type == "file"
      then beside home (expand_home w t.path)
      else if t.type == "keychain"
      then w.join_path home ".claude.json"
      else ""

  -- claudeJSONForTarget
  unfoldable pub claude_json_for_target : Target → String
  claude_json_for_target t = in_home t w.home

  abbrev written : Bool → Identity
  written done = if done then changed else unwritten

  unfoldable pub record_account : String → Dict Value → Decoded → Act Identity
  record_account path acct not_json = pure unreadable
  record_account path acct nil_map = pure panicked
  record_account path acct (decoded m) =
      when is_email (recorded_email m) (text_at acct "emailAddress") then pure unchanged else (do
        done ← write_file w path (document (object (of_dict (with_account m acct))))
        pure (written done))

  -- syncIdentity
  unfoldable pub sync_identity : String → Dict Value → Act Identity
  sync_identity path acct = do
    got ← read_file w path
    match_option got (pure unreadable) λ c. record_account path acct (decode_settings c)
