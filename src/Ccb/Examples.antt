-- ===== src/Ccb/Examples.antt =====
-- A machine with one target, and a broker that adopts what it is offered.
mod Sorting
mod Transporting
mod Syncing
mod Scripts
mod Rows
mod Installing
use ccbroker.Base.{String, true, false, Option, none, some, List, [], ◌∷◌, pos, Dict, ℕ}
use ccbroker.Json.{Value, object, of_dict, text, boolean, number, of_int}
use ccbroker.Config.AgentFile.{Target, Agent}
use ccbroker.Ccb.State.{
  Content, document, Request, offer, get_credential, get_usage, poll, Response, Answer, World,
  Machine,
}

abbrev pub target : Target
target = record { cred = "work"; type = "file"; path = "/c/.credentials.json" }

abbrev pub agent : Agent
agent = record {
  broker_url = "http://b";
  token = "tok";
  interval_sec = pos 1800;
  targets = target ∷ [];
  ca_cert_path = "";
  insecure = false;
  client_cert_path = "";
  client_key_path = "";
  proxy_url = "";
  active_file = "/c/active";
  auto = false;
  auto_threshold = record { mantissa = pos 95; scale = 2 };
  auto_policy = "manual";
  watch_wait_sec = pos 20;
}

abbrev json : Dict Value → Response
json d = record { status = 200; gen_header = "7"; json = some (object (of_dict d)) }

abbrev pub served_tokens : Dict Value
served_tokens = ("accessToken", text "a1") ∷ []

abbrev answers : Request → Answer
answers (offer d) = some (json (("adopted", boolean true) ∷ ("name", text "work") ∷ []))
answers (get_credential name probe) = some (
    json
      (("claudeAiOauth", object (of_dict served_tokens)) ∷ ("gen", number (of_int (pos 7))) ∷ []))
answers get_usage = none
answers (poll name since wait) = some (json [])

abbrev pub world : World
world = record {
  home = some "/home/u";
  join_path = λ a b. b;
  dir_path = λ p. "/c";
  is_darwin = false;
  base_path = λ p. p;
  real_path = λ p. p;
  exe = some "/bin/ccb";
  read_fails = λ i. false;
  writes = λ i. true;
  torn = λ i a. a;
  torn_file = λ i c. c;
  clock = λ i. 1000;
  answer = λ i. answers;
  others = λ i s. s;
  cancelled = λ i. false;
  reload = λ i. none;
  random = λ i n. 0;
  sort_rows = λ rows. rows;
}

abbrev pub local_tokens : Dict Value
local_tokens = ("accessToken", text "a0") ∷ ("refreshToken", text "r0") ∷ []

abbrev pub local_document : Dict Value
local_document = ("claudeAiOauth", object (of_dict local_tokens)) ∷ ("mcpOAuth", text "m") ∷ []

abbrev pub machine : Machine
machine = record {
  files = ("/c/.credentials.json", document (object (of_dict local_document))) ∷ [];
  keychain = none;
  scripts = [];
  active = some "work\n";
  status_cache = none;
  asked = 0;
  log = [];
}
