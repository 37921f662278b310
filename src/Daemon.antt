-- ===== src/Daemon.antt =====
-- cmd/ccbrokerd/main.go: the command of the daemon, with store.Open of internal/store/store.go. What the
-- files hold, the cipher and what the listeners do are answers of the machine.
pub mod Keys
pub mod Started
mod Examples
use ccbroker.Base.{
  ℕ, String, ◌==◌, Bool, not, ◌&&◌, ◌||◌, Option, none, some, List, [], ◌∷◌, ◌++◌, ◌+◌, ◌/◌, ◌%◌,
  Dict, eqb, ltb, length, trim_space, if◌then◌else◌,
}
use ccbroker.Config.{ServerConfig, load_server}
use ccbroker.Config.KeyFile.{load_key}
use ccbroker.Creds.{Record}
use ccbroker.Store.{Store}
use ccbroker.Store.File.{Codec, load}
use ccbroker.Server.State.{Broker, Env}
use ccbroker.Server.Migrate.{Migrated, ready, new_broker, migrate}

abbrev pub hex_digit : ℕ → ℕ
hex_digit n = if ltb n 10 then 48 + n else 87 + n

-- hex.EncodeToString
unfoldable pub encode_hex : List ℕ → List ℕ
encode_hex [] = []
encode_hex (b ∷ bs) = hex_digit (b / 16) ∷ hex_digit (b % 16) ∷ encode_hex bs

-- genkey, as the line that it prints of the bytes that were drawn
unfoldable pub genkey : List ℕ → List ℕ
genkey bytes = encode_hex bytes ++ 10 ∷ []

-- hashtoken, of what was typed
unfoldable pub hashtoken : (String → String) → String → String
hashtoken sha256hex raw = sha256hex (trim_space raw)

-- The path behind the last -c.
unfoldable pub config_arg : String → List String → String
config_arg path [] = path
config_arg path (arg ∷ []) = path
config_arg path (arg ∷ value ∷ args) =
    let given = config_arg value args in
    let next = config_arg path (value ∷ args) in
    if arg == "-c" || arg == "--config" then given else next

pub record Disk : Type 0 where
  -- the configuration as json.Unmarshal reads it, and the text of the key, `none` for an error
  pub server_file : String → Option ServerConfig
  pub key_file : String → Option String
  -- the store's file, `some none` where there is none
  pub store_file : String → Option (Option (List ℕ))
  -- AES-GCM with a key
  pub codec : List ℕ → Option Codec
  pub audit_opens : String → Bool
  -- what the broker meets, with its configuration
  pub env_of : ServerConfig → Env

-- How the start ends: each but `serving` is fatal.
pub data Outcome : Type 0 where
  no_path bad_config bad_key bad_store no_audit : Outcome
  refused : Migrated → Outcome
  serving : ServerConfig → Broker → Outcome

abbrev fresh_store : Option (Dict Record) → Option Store
fresh_store none = none
fresh_store (some records) = some (record { data_map = records; disk = records })

abbrev load_with : Option Codec → Option (Option (List ℕ)) → Option Store
load_with (some z) (some file) = fresh_store (load z file)
load_with _ _ = none

module _ (d : Disk) where
  -- store.Open
  unfoldable pub open_store : String → List ℕ → Option Store
  open_store path key =
      if eqb (length key) 32 then load_with (d.codec key) (d.store_file path) else none

  abbrev serve_migrated : ServerConfig → Migrated × Broker → Outcome
  serve_migrated cfg (ready, b) = serving cfg b
  serve_migrated cfg (other, b) = refused other

  abbrev serve_store : ServerConfig → Option Store → Outcome
  serve_store cfg none = bad_store
  serve_store cfg (some st) =
      if not (cfg.audit_log == "") && not (d.audit_opens cfg.audit_log)
      then no_audit
      else serve_migrated cfg (migrate (d.env_of cfg) (new_broker st))

  abbrev serve_key : ServerConfig → Option (List ℕ) → Outcome
  serve_key cfg none = bad_key
  serve_key cfg (some key) = serve_store cfg (open_store cfg.store_path key)

  abbrev key_of : Option String → Option (List ℕ)
  key_of none = none
  key_of (some text) = load_key text

  abbrev serve_config : Option ServerConfig → Outcome
  serve_config none = bad_config
  serve_config (some cfg) = serve_key cfg (key_of (d.key_file cfg.key_path))

  abbrev config_of : Option ServerConfig → Option ServerConfig
  config_of none = none
  config_of (some c) = load_server c

  -- serve, up to the listeners
  unfoldable pub serve : List String → Outcome
  serve args =
      if config_arg "" args == ""
      then no_path
      else serve_config (config_of (d.server_file (config_arg "" args)))
