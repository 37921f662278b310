-- ===== src/Ccb/Main/Arguments.antt =====
-- The flags of ccb (cmd/ccb/main.go: the loop over the arguments in main).
use ccbroker.Base.{String, ◌==◌, Bool, true, false, ◌||◌, List, [], ◌∷◌, ◌++◌, if◌then◌else◌}

pub record Flags : Type 0 where
  pub config_path : String
  pub settings_path : String
  pub install : Bool
  pub all : Bool
  pub positional : List String

abbrev pub no_flags : String → Flags
no_flags default_path = record {
  config_path = default_path;
  settings_path = "";
  install = false;
  all = false;
  positional = [];
}

abbrev pub with_word : Flags → String → Flags
with_word f word =
    if word == "--install"
    then record f { install = true }
    else if word == "--all"
    then record f { all = true }
    else record f { positional = f.positional ++ word ∷ [] }

-- The loop: a flag with a value takes the word behind it, if there is one.
unfoldable pub parse_flags : Flags → List String → Flags
parse_flags f [] = f
parse_flags f (word ∷ []) = with_word f word
parse_flags f (word ∷ value ∷ args) =
    let config = parse_flags (record f { config_path = value }) args in
    let settings = parse_flags (record f { settings_path = value }) args in
    let next = parse_flags (with_word f word) (value ∷ args) in
    if word == "-c" || word == "--config"
    then config
    else if word == "--settings"
    then settings
    else next
