-- ===== src/Ccb/Examples/Transporting.antt =====
-- A client with its own roots, its own certificate and a proxy.
use ccbroker.Base.{
  ◌≡◌, refl, true, some, [], ◌∷◌, pure, ◌>>=◌, when◌then◌else◌, match_option, lookup, strip_prefix,
}
use ccbroker.Config.AgentFile.{Agent, Url}
use ccbroker.Ccb.State.{Machine, elapse, read_script}
use ccbroker.Ccb.Local.{expand_home}
use ccbroker.Ccb.Transport.{
  Library, HttpClient, fixed, tls12, load_roots, load_pair, load_certificate, choose_proxy,
  http_client_timeout,
}
use ccbroker.Ccb.Transport.Secured.{Secured, http_client-Secured}
use ccbroker.Ccb.Examples.{agent, world, machine}

abbrev proxy_url : Url
proxy_url = record { scheme = "socks5"; host = "localhost:1055" }

abbrev lib : Library
lib = record { has_certs = λ pem. true; pairs = λ cert key. true; parse_url = λ s. some proxy_url }

abbrev guarded : Agent
guarded = record agent {
  ca_cert_path = "/ca.pem";
  client_cert_path = "/cert.pem";
  client_key_path = "/key.pem";
  proxy_url = "socks5://localhost:1055";
}

abbrev with_certs : Machine
with_certs = record machine {
  scripts = ("/ca.pem", 1 ∷ []) ∷ ("/cert.pem", 2 ∷ []) ∷ ("/key.pem", 3 ∷ []) ∷ [];
}

abbrev built_client : HttpClient
built_client = record {
  timeout = 30000;
  min_version = tls12;
  insecure = agent.insecure;
  roots = some (1 ∷ []);
  certificate = some (2 ∷ [], 3 ∷ []);
  proxy = fixed proxy_url;
  dial_timeout = 5000;
  keep_alive = 30000;
  handshake_timeout = 5000;
}

built : (http_client_timeout world lib guarded 30000 with_certs).0 ≡ some built_client
unfolding http_client_timeout load_roots load_pair load_certificate choose_proxy read_script
    expand_home elapse strip_prefix lookup pure ◌>>=◌ when◌then◌else◌ match_option
built = refl

http_client-Secured_example : Secured world lib guarded with_certs built_client
http_client-Secured_example =
    http_client-Secured world lib guarded 30000 built_client with_certs built
