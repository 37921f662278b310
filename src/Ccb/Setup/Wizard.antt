-- ===== src/Ccb/Setup/Wizard.antt =====
-- What `ccb setup` asks for (cmd/ccb/setup.go: runSetup, from the broker's URL to the configuration).
pub mod Answers
pub mod Typed
use ccbroker.Base.{
  String, ◌==◌, Bool, true, false, ◌||◌, ◌&&◌, not, Option, none, some, List, [], ◌∷◌, ℤ, pos,
  ltb_ℤ, codes, begins_with, if◌then◌else◌,
}
use ccbroker.Json.{Decimal, of_int}
use ccbroker.Anthropic.{less, nothing}
use ccbroker.Config.AgentFile.{Url, Target, Agent, usable_url}
use ccbroker.Ccb.Broker.{parse_gen as parse_int}
use ccbroker.Ccb.Setup.Dialog.{Dialog, answer, ask, ask_required, ask_choice, ◌>>=◌}

abbrev pub web_url : String → Bool
web_url s = begins_with (codes s) (codes "http://") || begins_with (codes s) (codes "https://")

abbrev pub filled : String → Bool
filled s = not (s == "")

-- useFile
abbrev pub target_choice : String → Option Bool
target_choice s = if s == "" || s == "1" then some false else if s == "2" then some true else none

abbrev pub policy_choice : String → Option String
policy_choice s =
    if s == "" || s == "1"
    then some "manual"
    else if s == "2"
    then some "account"
    else if s == "3"
    then some "all"
    else none

abbrev positive : Option ℤ → Option ℤ
positive none = none
positive (some n) = if ltb_ℤ (pos 0) n then some n else none

abbrev pub interval_choice : String → Option ℤ
interval_choice s = if s == "" then some (pos 1800) else positive (parse_int s)

abbrev pub default_threshold : Decimal
default_threshold = record { mantissa = pos 95; scale = 2 }

abbrev pub in_range : Decimal → Bool
in_range t = less nothing t && not (less (of_int (pos 2)) t)

abbrev ranged : Option Decimal → Option Decimal
ranged none = none
ranged (some t) = if in_range t then some t else none

-- What is put where nothing was said.
abbrev or_path : String → String
or_path path = if path == "" then "~/.claude/.credentials.json" else path

abbrev file_target : String → Target
file_target path = record { cred = "@active"; type = "file"; path = or_path path }

abbrev keychain_target : Target
keychain_target = record { cred = "@active"; type = "keychain"; path = "" }

unfoldable pub ask_key : String → Dialog String
ask_key cert = if cert == "" then answer "" else ask_required filled

unfoldable pub ask_target : Bool → Dialog Target
ask_target true = do path ← ask; answer (file_target path)
ask_target false = answer keychain_target

-- url.Parse, strconv.ParseFloat of a finite number, and whether runtime.GOOS is darwin.
module _ (parse_url : String → Option Url) (parse_float : String → Option Decimal)
    (is_darwin : Bool) where
  abbrev pub proxy_choice : String → Option String
  proxy_choice s = if s == "" then some "" else if usable_url (parse_url s) then some s else none

  abbrev pub threshold_choice : String → Option Decimal
  threshold_choice s = if s == "" then some default_threshold else ranged (parse_float s)

  unfoldable pub ask_use_file : Dialog Bool
  ask_use_file = if is_darwin then ask_choice target_choice else answer true

  unfoldable pub ask_threshold : String → Dialog Decimal
  ask_threshold policy =
      if policy == "manual" then answer default_threshold else ask_choice threshold_choice

  -- The configuration that is written.
  unfoldable pub collect : Dialog Agent
  collect = do
    broker_url ← ask_required web_url
    token ← ask_required filled
    ca_cert ← ask
    client_cert ← ask
    client_key ← ask_key client_cert
    proxy_url ← ask_choice proxy_choice
    use_file ← ask_use_file
    target ← ask_target use_file
    interval ← ask_choice interval_choice
    policy ← ask_choice policy_choice
    threshold ← ask_threshold policy
    answer (record {
      broker_url = broker_url;
      token = token;
      interval_sec = interval;
      targets = target ∷ [];
      ca_cert_path = ca_cert;
      insecure = false;
      client_cert_path = client_cert;
      client_key_path = client_key;
      proxy_url = proxy_url;
      active_file = "";
      auto = false;
      auto_threshold = threshold;
      auto_policy = policy;
      watch_wait_sec = pos 0;
    })
