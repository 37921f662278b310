-- ===== src/Ccb/Settings/Install.antt =====
-- `ccb statusline --install` (cmd/ccb/main.go: installStatusline), which goes on without the settings
-- if they cannot be read.
use Prim.Native.String.{◌++◌}
use ccbroker.Base.{
  String, ◌==◌, ◌≡◌, Option, none, some, [], ◌∷◌, Dict, lookup, insert, lookup-insert,
  if◌then◌else◌, pure, ◌>>=◌, match_option, when◌then◌else◌,
}
use ccbroker.Json.{Value, object, text, of_dict}
use ccbroker.Ccb.State.{Content, document, World, Act, read_file, overwrite_file}
use ccbroker.Ccb.Local.{has, expand_home, whole}
use ccbroker.Ccb.Identity.{Decoded, decoded, nil_map, not_json, decode_value}
use ccbroker.Ccb.Settings.{Installed, changed, failed, crashed}

abbrev readable : Option (Option Content) → Option Content
readable (some (some c)) = some c
readable _ = none

-- What is installed into: an empty map where the file was not read, also if that was an error.
unfoldable pub install_into : Option Content → Decoded
install_into none = decoded []
install_into (some c) = decode_value (whole (some c))

abbrev status_line : String → Dict Value
status_line exe = ("type", text "command") ∷ ("command", text (exe ++ " statusline")) ∷ []

unfoldable pub with_status_line : String → Dict Value → Dict Value
with_status_line exe m = insert "statusLine" (object (of_dict (status_line exe))) m

abbrev or_default_path : String → String
or_default_path p = if p == "" then "~/.claude/settings.json" else p

module _ (w : World) where
  abbrev write_installed : String → Dict Value → String → Act Installed
  write_installed p m exe = do
    done ← overwrite_file w p (document (object (of_dict (with_status_line exe m))))
    pure (if done then changed else failed)

  unfoldable pub install_decoded : String → Decoded → Act Installed
  install_decoded p not_json = pure failed
  install_decoded p nil_map = match_option w.exe (pure failed) (λ exe. pure crashed)
  install_decoded p (decoded m) =
      when has "statusLine" m
      then pure failed
      else match_option w.exe (pure failed) (write_installed p m)

  -- installStatusline
  unfoldable pub install_statusline : String → Act Installed
  install_statusline path = do
    got ← read_file w (expand_home w (or_default_path path))
    install_decoded (expand_home w (or_default_path path)) (install_into (readable got))

-- The other settings stay, as far as they were read.
pub lookup-with_status_line :
    (exe k : String) (m : Dict Value)
    → lookup k (with_status_line exe m)
      ≡ (if "statusLine" == k then some (object (of_dict (status_line exe))) else lookup k m)
unfolding with_status_line
lookup-with_status_line exe k m = lookup-insert "statusLine" k _ m
