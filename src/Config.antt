-- ===== src/Config.antt =====
-- internal/config/config.go: the daemon's configuration, after encoding/json has read it.
pub mod Defaults
mod Examples
pub mod AgentFile
pub mod AgentJson
pub mod AgentDefaults
pub mod KeyFile
use ccbroker.Base.{
  String, ◌==◌, Bool, ◌||◌, Option, none, some, List, ℤ, pos, ltb_ℤ, if◌then◌else◌, not,
}

-- Client
pub record Client : Type 0 where
  pub name : String
  pub token_sha256 : String
  pub scopes : List String

-- Server
pub record ServerConfig : Type 0 where
  pub listen : String
  pub admin_listen : String
  pub admin_token : String
  pub store_path : String
  pub key_path : String
  pub audit_log : String
  pub refresh_skew_sec : ℤ
  pub usage_poll_sec : ℤ
  pub clients : List Client
  pub serve_refresh_token : Bool

abbrev pub or_default : String → String → String
or_default s d = if s == "" then d else s

abbrev pub is_zero : ℤ → Bool
is_zero n = not (ltb_ℤ n (pos 0) || ltb_ℤ (pos 0) n)

abbrev pub or_number : ℤ → ℤ → ℤ
or_number n d = if is_zero n then d else n

abbrev pub with_defaults : ServerConfig → ServerConfig
with_defaults c = record c {
  listen = or_default c.listen ":8787";
  admin_listen = or_default c.admin_listen "127.0.0.1:8788";
  refresh_skew_sec = or_number c.refresh_skew_sec (pos 3600);
  usage_poll_sec = or_number c.usage_poll_sec (pos 300);
}

-- LoadServer: `none` is the error that storePath and keyPath are required.
unfoldable pub load_server : ServerConfig → Option ServerConfig
load_server c = if c.store_path == "" || c.key_path == "" then none else some (with_defaults c)
