-- ===== src/Ccb/Settings.antt =====
-- Installing the status line and taking it out (cmd/ccb/main.go: loadSettings, statuslineOn,
-- statuslineOff, isCcbStatuslineCommand, locateScript). What is printed is left out.
pub mod Editing
pub mod Install
use Prim.Native.String.{◌++◌}
use ccbroker.Base.{
  ℕ, String, ◌==◌, Bool, true, false, ◌&&◌, ◌||◌, Option, none, some, List, [], ◌∷◌, Dict, lookup,
  insert, erase, codes, contains, fields, same_codes, if◌then◌else◌, pure, gets, ◌>>=◌,
  match_option, when◌then◌else◌,
}
use ccbroker.Json.{Value, object, null, text, to_dict, of_dict}
use ccbroker.Ccb.State.{
  Content, document, trailing, Machine, World, Act, read_file, write_file, read_script,
  write_script,
}
use ccbroker.Ccb.Local.{has, as_map, oauth_str, expand_home}
use ccbroker.Ccb.Identity.{Decoded, decoded, nil_map, not_json}
use ccbroker.Ccb.Script.{block_upsert, block_remove}

-- dec.More() takes a closing bracket for the end.
abbrev settings_in : Content → Option Value
settings_in (document v) = some v
settings_in (trailing v true) = some v
settings_in _ = none

abbrev settings_value : Option Value → Decoded
settings_value (some (object fs)) = decoded (to_dict fs)
settings_value (some null) = nil_map
settings_value _ = not_json

-- loadSettings, of what was read
unfoldable pub settings_of : Option Content → Decoded
settings_of none = decoded []
settings_of (some c) = settings_value (settings_in c)

-- What is to be done to a settings file: `panics` is an assignment to a nil map.
pub data Edit : Type 0 where
  write_settings : Dict Value → Edit
  edit_script : String → Edit
  leave panics : Edit

-- How an installation or a removal ends: `failed` is an error, `crashed` a panic.
pub data Installed : Type 0 where
  changed unchanged failed crashed : Installed

abbrev pub target_command : String → String
target_command exe = exe ++ " statusline --all"

module _ (w : World) where
  abbrev is_interp_name : String → Bool
  is_interp_name tok = tok == "bash" || tok == "sh" || tok == "zsh" || tok == "dash" || tok == "env"

  -- isInterpToken
  unfoldable pub is_interp_token : String → Bool
  is_interp_token tok = is_interp_name tok || is_interp_name (w.base_path tok)

  abbrev skip_interp : List String → List String
  skip_interp [] = []
  skip_interp (tok ∷ toks) =
      let rest = skip_interp toks in if is_interp_token tok then rest else tok ∷ toks

  abbrev runs_ccb : List String → Bool
  runs_ccb (program ∷ sub ∷ rest) = w.base_path program == "ccb" && sub == "statusline"
  runs_ccb _ = false

  -- isCcbStatuslineCommand
  unfoldable pub is_ccb_statusline_command : String → String → Bool
  is_ccb_statusline_command cmd exe =
      contains (codes cmd) (codes (exe ++ " statusline")) || runs_ccb (skip_interp (fields cmd))

  -- The command of a statusLine, "" where there is none.
  abbrev command_of : Value → String
  command_of v = oauth_str (as_map (some v)) "command"

  abbrev or_empty : Option (Dict Value) → Dict Value
  or_empty none = []
  or_empty (some d) = d

  -- sl["command"] = target, with a type where it is missing
  abbrev updated : String → Value → Dict Value
  updated target v =
      let sl = insert "command" (text target) (or_empty (as_map (some v))) in
      if has "type" sl then sl else insert "type" (text "command") sl

  abbrev installed : String → Dict Value
  installed target = ("type", text "command") ∷ ("command", text target) ∷ []

  abbrev on_edit_found : String → Dict Value → Value → Edit
  on_edit_found exe m v =
      if is_ccb_statusline_command (command_of v) exe
      then (if command_of v == target_command exe
          then leave
          else write_settings
              (insert "statusLine" (object (of_dict (updated (target_command exe) v))) m))
      else edit_script (command_of v)

  abbrev on_edit_map : String → Dict Value → Option Value → Edit
  on_edit_map exe m none =
      write_settings (insert "statusLine" (object (of_dict (installed (target_command exe)))) m)
  on_edit_map exe m (some v) = on_edit_found exe m v

  -- What statuslineOn decides on settings that were read.
  unfoldable pub on_edit : String → Option (Dict Value) → Edit
  on_edit exe none = panics
  on_edit exe (some m) = on_edit_map exe m (lookup "statusLine" m)

  abbrev off_edit_found : String → Dict Value → Option Value → Edit
  off_edit_found exe m none = leave
  off_edit_found exe m (some v) =
      if is_ccb_statusline_command (command_of v) exe
      then write_settings (erase "statusLine" m)
      else edit_script (command_of v)

  -- What statuslineOff decides.
  unfoldable pub off_edit : String → Option (Dict Value) → Edit
  off_edit exe none = leave
  off_edit exe (some m) = off_edit_found exe m (lookup "statusLine" m)

  abbrev script_in : Dict (List ℕ) → List String → Option String
  script_in scripts [] = none
  script_in scripts (tok ∷ toks) = elim (lookup (expand_home w tok) scripts) [
    | none ↦ script_in scripts toks
    | some bytes ↦ some (expand_home w tok)
  ]

  -- locateScript, over the regular files that there are
  unfoldable pub locate_script : Dict (List ℕ) → String → Option String
  locate_script scripts cmd = script_in scripts (skip_interp (fields cmd))

  abbrev outcome : Bool → Installed
  outcome done = if done then changed else failed

  abbrev upsert_script : String → List ℕ → Act Installed
  upsert_script path old =
      when same_codes (block_upsert old) old
      then pure unchanged
      else (do done ← write_script w path (block_upsert old); pure (outcome done))

  abbrev remove_script : String → List ℕ → Act Installed
  remove_script path old =
      when (block_remove old).1
      then (do done ← write_script w path (block_remove old).0; pure (outcome done))
      else pure unchanged

  abbrev with_script : Act Installed → (String → List ℕ → Act Installed) → String → Act Installed
  with_script missing change cmd = do
    scripts ← gets (λ s. s.scripts)
    match_option (locate_script scripts cmd) missing λ path. (do
      old ← read_script w (w.real_path path)
      match_option old (pure failed) (change (w.real_path path)))

  unfoldable pub perform :
      String → Act Installed → (String → List ℕ → Act Installed) → Edit → Act Installed
  perform p missing change (write_settings m) = do
    done ← write_file w p (document (object (of_dict m)))
    pure (outcome done)
  perform p missing change (edit_script cmd) = with_script missing change cmd
  perform p missing change leave = pure unchanged
  perform p missing change panics = pure crashed

  abbrev on_decoded : String → Decoded → Act Installed
  on_decoded p not_json = pure failed
  on_decoded p nil_map =
      match_option w.exe (pure failed)
        λ exe. perform p (pure failed) upsert_script (on_edit exe none)
  on_decoded p (decoded m) =
      match_option w.exe (pure failed)
        λ exe. perform p (pure failed) upsert_script (on_edit exe (some m))

  abbrev off_decoded : String → Decoded → Act Installed
  off_decoded p not_json = pure failed
  off_decoded p nil_map = pure unchanged
  off_decoded p (decoded m) =
      when has "statusLine" m
      then (match_option w.exe (pure failed)
          λ exe. perform p (pure unchanged) remove_script (off_edit exe (some m)))
      else pure unchanged

  abbrev or_default_path : String → String
  or_default_path p = if p == "" then "~/.claude/settings.json" else p

  -- settingsPathOrDefault
  unfoldable pub settings_path_or_default : String → String
  settings_path_or_default p = w.real_path (expand_home w (or_default_path p))

  -- statuslineOn
  unfoldable pub statusline_on : String → Act Installed
  statusline_on path = do
    got ← read_file w (settings_path_or_default path)
    match_option got (pure failed) λ c. on_decoded (settings_path_or_default path) (settings_of c)

  -- statuslineOff
  unfoldable pub statusline_off : String → Act Installed
  statusline_off path = do
    got ← read_file w (settings_path_or_default path)
    match_option got (pure failed) λ c. off_decoded (settings_path_or_default path) (settings_of c)
