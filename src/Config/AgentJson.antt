-- ===== src/Config/AgentJson.antt =====
-- internal/config/config.go: the agent's configuration as JSON, read by json.Unmarshal and written by
-- json.MarshalIndent after the tags of the structs Agent and Target.
use ccbroker.Base.Options.{◌>>=◌}
use ccbroker.Base.{
  String, ◌==◌, Bool, true, false, Option, none, some, List, [], ◌∷◌, ℤ, pos, Dict, lookup, insert,
  ◌&&◌, ◌||◌, not, if◌then◌else◌,
}
use ccbroker.Json.{
  Decimal, of_int, Value, Items, item, no_items, object, array, text, number, boolean, null, Fields,
  field, no_fields, of_dict, read_text, read_bool, read_int, reads_as,
}
use ccbroker.Config.{is_zero}
use ccbroker.Config.AgentFile.{Target, Agent}

-- a float64 field
unfoldable pub read_decimal : Option Value → Option Decimal
read_decimal none = some (of_int (pos 0))
read_decimal (some null) = some (of_int (pos 0))
read_decimal (some (number d)) = some d
read_decimal _ = none

unfoldable pub read_target : Dict Value → Option Target
read_target d = do
  cred ← read_text (lookup "cred" d)
  type ← read_text (lookup "type" d)
  path ← read_text (lookup "path" d)
  some (record { cred = cred; type = type; path = path })

abbrev cons_target : Option Target → Option (List Target) → Option (List Target)
cons_target t ts = do a ← t; rest ← ts; some (a ∷ rest)

-- A field of a struct: its tag, whether a value has its type, and whether null makes it empty, as it
-- does a slice, where it leaves any other field as it is.
pub record Tag : Type 0 where
  pub name : String
  pub fits : Value → Bool
  pub clears : Bool

abbrev is_null : Value → Bool
is_null null = true
is_null _ = false

abbrev fits_so_far : Tag → Option Value → Bool
fits_so_far t none = true
fits_so_far t (some v) = t.fits v

-- One more value for a field. One that has not its type is an error, which stays.
abbrev put_field : Tag → Value → Dict Value → Dict Value
put_field t v d =
    if is_null v && not t.clears || not (fits_so_far t (lookup t.name d))
    then d
    else insert t.name v d

-- The key fills the field that it reads as; other keys are left out.
abbrev put_key : List Tag → String → Value → Dict Value → Dict Value
put_key [] k v d = d
put_key (t ∷ ts) k v d =
    let rest = put_key ts k v d in if reads_as t.name k then put_field t v d else rest

-- json.Unmarshal into a struct, field by field: what each tag has at the end. Of a slice that is given
-- twice, the later one counts.
unfoldable pub struct_of : List Tag → Dict Value → Fields → Dict Value
struct_of tags d no_fields = d
struct_of tags d (field k v fs) = struct_of tags (put_key tags k v d) fs

abbrev given {ℓ} : {A : Type ℓ} → Option A → Bool
given none = false
given (some a) = true

abbrev text_tag : String → Tag
text_tag name = record { name = name; fits = λ v. given (read_text (some v)); clears = false }

abbrev bool_tag : String → Tag
bool_tag name = record { name = name; fits = λ v. given (read_bool (some v)); clears = false }

abbrev int_tag : String → Tag
int_tag name = record { name = name; fits = λ v. given (read_int (some v)); clears = false }

abbrev decimal_tag : String → Tag
decimal_tag name = record { name = name; fits = λ v. given (read_decimal (some v)); clears = false }

abbrev target_tags : List Tag
target_tags = text_tag "cred" ∷ text_tag "type" ∷ text_tag "path" ∷ []

abbrev item_target : Value → Option Target
item_target (object fs) = read_target (struct_of target_tags [] fs)
item_target null = read_target []
item_target _ = none

unfoldable pub read_items : Items → Option (List Target)
read_items no_items = some []
read_items (item v vs) = cons_target (item_target v) (read_items vs)

unfoldable pub read_targets : Option Value → Option (List Target)
read_targets none = some []
read_targets (some null) = some []
read_targets (some (array vs)) = read_items vs
read_targets _ = none

-- The struct, once every field has been read.
unfoldable pub of_fields :
    Option String
    → Option String
    → Option ℤ
    → Option (List Target)
    → Option String
    → Option Bool
    → Option String
    → Option String
    → Option String
    → Option String
    → Option Bool
    → Option Decimal
    → Option String
    → Option ℤ
    → Option Agent
of_fields broker_url' token' interval_sec' targets' ca_cert_path' insecure' client_cert_path'
      client_key_path' proxy_url' active_file' auto' auto_threshold' auto_policy' watch_wait_sec' =
    do
      broker_url ← broker_url'
      token ← token'
      interval_sec ← interval_sec'
      targets ← targets'
      ca_cert_path ← ca_cert_path'
      insecure ← insecure'
      client_cert_path ← client_cert_path'
      client_key_path ← client_key_path'
      proxy_url ← proxy_url'
      active_file ← active_file'
      auto ← auto'
      auto_threshold ← auto_threshold'
      auto_policy ← auto_policy'
      watch_wait_sec ← watch_wait_sec'
      some (record {
        broker_url = broker_url;
        token = token;
        interval_sec = interval_sec;
        targets = targets;
        ca_cert_path = ca_cert_path;
        insecure = insecure;
        client_cert_path = client_cert_path;
        client_key_path = client_key_path;
        proxy_url = proxy_url;
        active_file = active_file;
        auto = auto;
        auto_threshold = auto_threshold;
        auto_policy = auto_policy;
        watch_wait_sec = watch_wait_sec;
      })

-- The Agent, of the values that its tags have.
unfoldable pub read_agent : Dict Value → Option Agent
read_agent d =
    of_fields (read_text (lookup "brokerUrl" d)) (read_text (lookup "token" d))
      (read_int (lookup "intervalSec" d)) (read_targets (lookup "targets" d))
      (read_text (lookup "caCertPath" d)) (read_bool (lookup "insecure" d))
      (read_text (lookup "clientCertPath" d)) (read_text (lookup "clientKeyPath" d))
      (read_text (lookup "proxyUrl" d)) (read_text (lookup "activeFile" d))
      (read_bool (lookup "auto" d)) (read_decimal (lookup "autoThreshold" d))
      (read_text (lookup "autoPolicy" d)) (read_int (lookup "watchWaitSec" d))

abbrev agent_tags : List Tag
agent_tags =
    text_tag "brokerUrl"
    ∷ text_tag "token"
    ∷ int_tag "intervalSec"
    ∷ record { name = "targets"; fits = λ v. given (read_targets (some v)); clears = true }
    ∷ text_tag "caCertPath"
    ∷ bool_tag "insecure"
    ∷ text_tag "clientCertPath"
    ∷ text_tag "clientKeyPath"
    ∷ text_tag "proxyUrl"
    ∷ text_tag "activeFile"
    ∷ bool_tag "auto"
    ∷ decimal_tag "autoThreshold"
    ∷ text_tag "autoPolicy"
    ∷ int_tag "watchWaitSec"
    ∷ []

-- json.Unmarshal into an Agent: null leaves it as it is.
abbrev pub unmarshal_agent : Value → Option Agent
unmarshal_agent (object fs) = read_agent (struct_of agent_tags [] fs)
unmarshal_agent null = read_agent []
unmarshal_agent _ = none

-- A field with omitempty, before the others.
unfoldable pub text_field : String → String → Dict Value → Dict Value
text_field k s d = if s == "" then d else (k, text s) ∷ d

unfoldable pub bool_field : String → Bool → Dict Value → Dict Value
bool_field k true d = (k, boolean true) ∷ d
bool_field k false d = d

unfoldable pub number_field : String → Decimal → Dict Value → Dict Value
number_field k n d = if is_zero n.mantissa then d else (k, number n) ∷ d

unfoldable pub target_json : Target → Dict Value
target_json t = ("cred", text t.cred) ∷ ("type", text t.type) ∷ text_field "path" t.path []

unfoldable pub targets_json : List Target → Items
targets_json [] = no_items
targets_json (t ∷ ts) = item (object (of_dict (target_json t))) (targets_json ts)

-- json.MarshalIndent of an Agent whose targets are not nil
unfoldable pub agent_json : Agent → Dict Value
agent_json a =
    ("brokerUrl", text a.broker_url)
    ∷ ("token", text a.token)
    ∷ ("intervalSec", number (of_int a.interval_sec))
    ∷ ("targets", array (targets_json a.targets))
    ∷ text_field "caCertPath" a.ca_cert_path (
        bool_field "insecure" a.insecure (
          text_field "clientCertPath" a.client_cert_path (
            text_field "clientKeyPath" a.client_key_path (
              text_field "proxyUrl" a.proxy_url (
                text_field "activeFile" a.active_file (
                  bool_field "auto" a.auto (
                    number_field "autoThreshold" a.auto_threshold (
                      text_field "autoPolicy" a.auto_policy
                        (number_field "watchWaitSec" (of_int a.watch_wait_sec) [])))))))))
