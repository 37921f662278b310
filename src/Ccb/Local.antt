-- ===== src/Ccb/Local.antt =====
-- The credentials document of a target (cmd/ccb/main.go): how it is read, what is taken from it, and
-- how it is written. Modes, temporary files and log lines are left out.
pub mod Merging
use ccbroker.Base.{
  String, ◌==◌, Bool, true, false, ◌&&◌, Option, none, some, [], Dict, lookup, insert, erase,
  strip_prefix, if◌then◌else◌, pure, modify, ◌>>=◌, ◌>>◌, match_option, when◌then◌else◌,
}
use ccbroker.Json.{
  Value, Fields, field, no_fields, null, fill, reads_as, object, to_dict, of_dict, text_at,
}
use ccbroker.Config.AgentFile.{Target}
use ccbroker.Ccb.State.{
  Content, document, trailing, World, Act, read_target, wrote_target, note, read_file, write_file,
  read_keychain, write_keychain,
}

-- json.Unmarshal
abbrev pub whole : Option Content → Option Value
whole (some (document v)) = some v
whole _ = none

-- json.NewDecoder(b).Decode
abbrev pub first_value : Option Content → Option Value
first_value (some (document v)) = some v
first_value (some (trailing v closes)) = some v
first_value _ = none

-- m[k], present
abbrev pub has : String → Dict Value → Bool
has k d = elim (lookup k d) [ none ↦ false | some v ↦ true ]

-- A map, `none` where it is nil; null makes it nil, and any other type is an error, after which the
-- source takes it as nil too.
abbrev pub as_map : Option Value → Option (Dict Value)
as_map (some (object fs)) = some (to_dict fs)
as_map _ = none

-- oauthStr of a map that may be nil
unfoldable pub oauth_str : Option (Dict Value) → String → String
oauth_str none k = ""
oauth_str (some d) k = text_at d k

-- The whole document as a bare oauth object.
abbrev bare_oauth : Dict Value → Option (Dict Value)
bare_oauth d = if has "accessToken" d then some d else none

abbrev or_bare : Option (Dict Value) → Dict Value → Option (Dict Value)
or_bare none d = bare_oauth d
or_bare (some oauth) d = some oauth

abbrev or_empty : Option (Dict Value) → Dict Value
or_empty none = []
or_empty (some d) = d

-- A value that is decoded into a map, which may have keys already; null makes it nil, and `none` is
-- the error of any other type.
abbrev into_map : Option (Dict Value) → Value → Option (Option (Dict Value))
into_map m null = some none
into_map m (object fs) = some (some (fill (or_empty m) fs))
into_map m _ = none

-- json.Unmarshal into a credFile, of an object: every key that reads as the field is decoded into the
-- same map, one after another.
unfoldable pub decode_cred_file :
    Option (Option (Dict Value)) → Fields → Option (Option (Dict Value))
decode_cred_file none fs = none
decode_cred_file (some m) no_fields = some m
decode_cred_file (some m) (field k v fs) =
    decode_cred_file (if reads_as "claudeAiOauth" k then into_map m v else some m) fs

abbrev joined : Option (Option (Dict Value)) → Option (Dict Value)
joined none = none
joined (some m) = m

abbrev oauth_of : Option Value → Option (Dict Value)
oauth_of (some (object fs)) = or_bare (joined (decode_cred_file (some none) fs)) (to_dict fs)
oauth_of _ = none

-- parseOAuthBytes
unfoldable pub parse_oauth_bytes : Option Content → Option (Dict Value)
parse_oauth_bytes raw = oauth_of (whole raw)

-- stripRefreshToken
unfoldable pub strip_refresh_token : Dict Value → Dict Value
strip_refresh_token oauth = erase "refreshToken" oauth

-- sameOAuth
unfoldable pub same_oauth : Option (Dict Value) → Option (Dict Value) → Bool
same_oauth a b =
    oauth_str a "accessToken" == oauth_str b "accessToken"
    && oauth_str a "refreshToken" == oauth_str b "refreshToken"

-- The keys that stay: none of a nil map, and none of a bare oauth object.
abbrev pub kept_keys : Option (Dict Value) → Dict Value
kept_keys none = []
kept_keys (some d) = if has "accessToken" d then [] else d

-- mergeOAuthDoc
unfoldable pub merge_oauth_doc : Option Content → Dict Value → Dict Value
merge_oauth_doc cur oauth =
    insert "claudeAiOauth" (object (of_dict oauth)) (kept_keys (as_map (first_value cur)))

module _ (w : World) where
  abbrev under_home : String → Option String → Option String → String
  under_home p (some rest) (some home) = w.join_path home rest
  under_home p _ _ = p

  -- expandHome
  unfoldable pub expand_home : String → String
  expand_home p = under_home p (strip_prefix "~/" p) w.home

  unfoldable pub read_at : Target → Act (Option (Option Content))
  read_at t =
      when t.type == "file"
      then read_file w (expand_home t.path)
      else when t.type == "keychain"
      then read_keychain w
      else pure none

  -- readLocalRaw
  unfoldable pub read_local_raw : Target → Act (Option (Option Content))
  read_local_raw t = do
    got ← read_at t
    match_option got (pure none) λ raw. (modify (note (read_target t raw)) >> pure (some raw))

  -- readLocalOAuth
  unfoldable pub read_local_oauth : Target → Act (Option (Option (Dict Value)))
  read_local_oauth t = do
    got ← read_local_raw t
    match_option got (pure none) λ raw. pure (some (parse_oauth_bytes raw))

  unfoldable pub write_at : Target → Content → Act Bool
  write_at t c =
      when t.type == "file"
      then write_file w (expand_home t.path) c
      else when t.type == "keychain"
      then write_keychain w c
      else pure false

  -- writeTarget
  unfoldable pub write_target : Target → Content → Act Bool
  write_target t c = do
    done ← write_at t c
    when done then (modify (note (wrote_target t c)) >> pure true) else pure false

  -- writeIfUnchanged: whether it wrote, `none` for an error
  unfoldable pub write_if_unchanged : Target → Option (Dict Value) → Dict Value → Act (Option Bool)
  write_if_unchanged t snapshot oauth = do
    got ← read_local_raw t
    match_option got (pure none) λ raw.
        when same_oauth (parse_oauth_bytes raw) snapshot
        then (do
          done ← write_target t (document (object (of_dict (merge_oauth_doc raw oauth))))
          when done then pure (some true) else pure none)
        else pure (some false)
