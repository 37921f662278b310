-- ===== src/Config/AgentFile.antt =====
-- internal/config/config.go: the agent's configuration, after encoding/json has read it. net/url's
-- Parse is a parameter; a threshold is the exact decimal that the source rounds to float64.
use ccbroker.Base.{
  String, ◌==◌, Bool, ◌||◌, ◌&&◌, not, Option, none, some, List, ℤ, pos, trim_end_slashes,
  if◌then◌else◌,
}
use ccbroker.Json.{Decimal}
use ccbroker.Config.{or_default, or_number, is_zero}

pub record Target : Type 0 where
  pub cred : String
  pub type : String
  pub path : String

pub record Agent : Type 0 where
  pub broker_url : String
  pub token : String
  pub interval_sec : ℤ
  pub targets : List Target
  pub ca_cert_path : String
  pub insecure : Bool
  pub client_cert_path : String
  pub client_key_path : String
  pub proxy_url : String
  pub active_file : String
  pub auto : Bool
  pub auto_threshold : Decimal
  pub auto_policy : String
  pub watch_wait_sec : ℤ

-- The parts of a parsed URL that are read.
pub record Url : Type 0 where
  pub scheme : String
  pub host : String

-- EffectivePolicy
unfoldable pub effective_policy : Agent → String
effective_policy a =
    if not (a.auto_policy == "") then a.auto_policy else if a.auto then "account" else "manual"

abbrev pub known_policy : String → Bool
known_policy p = p == "" || p == "manual" || p == "account" || p == "all"

abbrev pub usable_url : Option Url → Bool
usable_url none = Bool.false
usable_url (some u) =
    not (u.host == "")
    && (u.scheme == "http" || u.scheme == "https" || u.scheme == "socks5" || u.scheme == "socks5h")

abbrev or_threshold : Decimal → Decimal
or_threshold d = if is_zero d.mantissa then record { mantissa = pos 95; scale = 2 } else d

abbrev pub with_agent_defaults : Agent → Agent
with_agent_defaults a = record a {
  interval_sec = or_number a.interval_sec (pos 1800);
  watch_wait_sec = or_number a.watch_wait_sec (pos 20);
  active_file = or_default a.active_file "~/.config/ccbroker/active";
  auto_threshold = or_threshold a.auto_threshold;
  broker_url = trim_end_slashes a.broker_url;
}

-- LoadAgent: `none` is an error of the validation.
unfoldable pub load_agent : (String → Option Url) → Agent → Option Agent
load_agent parse_url a =
    if a.broker_url == "" || a.token == ""
    then none
    else if not (known_policy a.auto_policy)
    then none
    else if not (a.proxy_url == "") && not (usable_url (parse_url a.proxy_url))
    then none
    else some (with_agent_defaults a)
