-- ===== src/Server/Examples.antt =====
-- Concrete runs of the broker: a store with one credential, and an upstream API that knows the
-- account.
mod Serving
mod Offers
mod Histories
mod Health
mod Accounts
use ccbroker.Base.{
  ℕ, ◌+◌, String, ◌==◌, true, false, Option, none, some, List, [], ◌∷◌, pos, Dict, if◌then◌else◌,
}
use ccbroker.Json.{Value, number, text, object, no_fields, field, of_int}
use ccbroker.Creds.{Record, HealthState, ok, suspect}
use ccbroker.Anthropic.{Request, refresh_grant, get_profile, get_usage, Answer, ResetTime}
use ccbroker.Config.{Client, ServerConfig}
use ccbroker.Store.{Store}
use ccbroker.Server.State.{Broker, Env, CredState}
use ccbroker.Server.GetCred.{CredRequest, Envelope}
use ccbroker.Server.Offer.{OfferRequest, Evidence}
use ccbroker.Server.Keeps.{Shared}
use ccbroker.Server.Calls.Kept.{Rely}

abbrev pub laptop : Client
laptop = record { name = "laptop"; token_sha256 = "tok"; scopes = "work" ∷ [] }

abbrev pub config : ServerConfig
config = record {
  listen = ":8787";
  admin_listen = "127.0.0.1:8788";
  admin_token = "secret";
  store_path = "s";
  key_path = "k";
  audit_log = "";
  refresh_skew_sec = pos 3600;
  usage_poll_sec = pos 300;
  clients = laptop ∷ [];
  serve_refresh_token = false;
}

-- The profile of an account.
abbrev profile : String → String → Value
profile uuid email = object (
    field "account" (object (field "uuid" (text uuid) (field "email" (text email) no_fields)))
      no_fields)

abbrev owned_by : String → String → Answer
owned_by uuid email = some (record { status = 200; body = ""; json = some (profile uuid email) })

-- The token "a2" is of the account that owns the credential, and "b1" is of another one.
abbrev answers : Request → Answer
answers (get_profile token) =
    if token == "a2"
    then owned_by "u1" "a@x"
    else if token == "b1"
    then owned_by "u2" "b@x"
    else some (record { status = 401; body = ""; json = none })
answers _ = none

-- Nothing fails, the hash is the identity, and no other goroutine runs.
abbrev pub quiet_env : Env
quiet_env = record {
  cfg = config;
  reclaim_delay = 1800000;
  dead_probe_interval = 3600000;
  probe_ttl = 60000;
  offer_rate = 12;
  clock = λ i. 1000 + i;
  wall = λ i. 1000 + i;
  saves = λ i. true;
  locks = λ i. true;
  cancelled = λ i. false;
  wake_first = λ i. true;
  answer = λ i. answers;
  others = λ i s. s;
  others_beside = λ i name s. s;
  sha256hex = λ s. s;
  refresh_error_text = λ e. "refresh";
  fetch_error_text = λ e. "fetch";
  reset_time = record { parse_float = λ s. none; parse_rfc3339 = λ s. none };
}

abbrev pub tokens : String → String → Dict Value
tokens access refresh =
    ("accessToken", text access)
    ∷ ("refreshToken", text refresh)
    ∷ ("expiresAt", number (of_int (pos 9000000)))
    ∷ []

abbrev pub work : Record
work = record {
  name = "work";
  account = "a@x";
  account_uuid = "u1";
  oauth = tokens "a1" "r1";
  gen = 5;
  health_state = ok;
  health_since = 0;
  retired_hashes = "a0" ∷ [];
  updated_at = 0;
  legacy_dead = false;
  last_error = "";
}

abbrev pub one_record : Dict Record
one_record = ("work", work) ∷ []

abbrev pub broker : Broker
broker = record {
  store = record { data_map = one_record; disk = one_record };
  backoff = [];
  dead_probe = [];
  store_ver = 0;
  gen_state = ("work", record { gen = 5; wakes = 0 }) ∷ [];
  usage = [];
  probe = [];
  rate = [];
  migrated = true;
  asked = 0;
  sent = [];
}

abbrev pub get_work : CredRequest
get_work = record {
  path = "/v1/credentials/work";
  authorization = "Bearer tok";
  probe = none;
  since_gen = none;
  wait_sec = none;
}

-- What `get_work` is answered.
abbrev pub work_envelope : Envelope
work_envelope = record {
  oauth = ("accessToken", text "a1") ∷ ("expiresAt", number (of_int (pos 9000000))) ∷ [];
  gen = 5;
  account = "a@x";
  probe_live = none;
}

-- An offer of new tokens of the same account, as the profile endpoint verifies it.
abbrev pub new_tokens : Dict Value
new_tokens = tokens "a2" "r2"

abbrev pub new_evidence : Evidence
new_evidence = record { version = 0; oauth = new_tokens; hash = "a2"; email = "a@x"; uuid = "u1" }

abbrev pub old_evidence : Evidence
old_evidence = record {
  version = 1;
  oauth = tokens "a1" "r1";
  hash = "a1";
  email = "a@x";
  uuid = "u1";
}

-- The other goroutines keep every property, as they do nothing.
pub quiet-Rely : (Q : Shared) → Rely quiet_env Q
quiet-Rely Q = record { others = λ i s h. h; beside = λ i name s h. h }
