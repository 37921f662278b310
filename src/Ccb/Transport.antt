-- ===== src/Ccb/Transport.antt =====
-- How the client reaches the broker (cmd/ccb/main.go: httpClient, httpClientTimeout). What crypto/x509,
-- crypto/tls and net/url make of files and texts is a parameter; durations are in milliseconds.
pub mod Secured
use ccbroker.Base.{
  ℕ, String, ◌==◌, Bool, ◌&&◌, ◌||◌, if◌then◌else◌, Option, none, some, List, match_option, pure,
  ◌>>=◌, when◌then◌else◌,
}
use ccbroker.Config.AgentFile.{Agent, Url}
use ccbroker.Ccb.State.{World, Act, read_script}
use ccbroker.Ccb.Local.{expand_home}

-- http.ProxyFromEnvironment, or http.ProxyURL
pub data Proxy : Type 0 where
  environment : Proxy
  fixed : Url → Proxy

-- `roots` is `none` for those of the system; a set of roots is its PEM text, and a certificate the
-- two texts of its pair.
pub record HttpClient : Type 0 where
  pub timeout : ℕ
  pub min_version : ℕ
  pub insecure : Bool
  pub roots : Option (List ℕ)
  pub certificate : Option (List ℕ × List ℕ)
  pub proxy : Proxy
  pub dial_timeout : ℕ
  pub keep_alive : ℕ
  pub handshake_timeout : ℕ

pub record Library : Type 0 where
  -- AppendCertsFromPEM, the pairs that tls.LoadX509KeyPair takes, url.Parse
  pub has_certs : List ℕ → Bool
  pub pairs : List ℕ → List ℕ → Bool
  pub parse_url : String → Option Url

-- tls.VersionTLS12
abbrev pub tls12 : ℕ
tls12 = 771

module _ (w : World) (lib : Library) where
  -- The roots of trust, `none` for an error.
  unfoldable pub load_roots : String → Act (Option (Option (List ℕ)))
  load_roots path = when path == "" then pure (some none) else (do
    got ← read_script w (expand_home w path)
    match_option got (pure none)
        λ pem. when lib.has_certs pem then pure (some (some pem)) else pure none)

  -- tls.LoadX509KeyPair: the certificate is read first
  unfoldable pub load_pair : String → String → Act (Option (List ℕ × List ℕ))
  load_pair cert_path key_path = do
    got_cert ← read_script w cert_path
    match_option got_cert (pure none) λ cert. (do
      got_key ← read_script w key_path
      match_option got_key (pure none)
          λ key. when lib.pairs cert key then pure (some (cert, key)) else pure none)

  abbrev pub as_certificate : Option (List ℕ × List ℕ) → Option (Option (List ℕ × List ℕ))
  as_certificate none = none
  as_certificate (some pair) = some (some pair)

  -- The client's certificate, `none` for an error.
  unfoldable pub load_certificate : String → String → Act (Option (Option (List ℕ × List ℕ)))
  load_certificate cert_path key_path =
      when cert_path == "" && key_path == ""
      then pure (some none)
      else when cert_path == "" || key_path == ""
      then pure none
      else (do
        pair ← load_pair (expand_home w cert_path) (expand_home w key_path)
        pure (as_certificate pair))

  abbrev pub as_proxy : Option Url → Option Proxy
  as_proxy none = none
  as_proxy (some u) = some (fixed u)

  unfoldable pub choose_proxy : String → Option Proxy
  choose_proxy url = if url == "" then some environment else as_proxy (lib.parse_url url)

  abbrev pub client_of : Agent → ℕ → Option (List ℕ) → Option (List ℕ × List ℕ) → Proxy → HttpClient
  client_of cfg timeout roots certificate proxy = record {
    timeout = timeout;
    min_version = tls12;
    insecure = cfg.insecure;
    roots = roots;
    certificate = certificate;
    proxy = proxy;
    dial_timeout = 5000;
    keep_alive = 30000;
    handshake_timeout = 5000;
  }

  abbrev pub client_by :
      Agent → ℕ → Option (List ℕ) → Option (List ℕ × List ℕ) → Option Proxy → Option HttpClient
  client_by cfg timeout roots certificate none = none
  client_by cfg timeout roots certificate (some proxy) =
      some (client_of cfg timeout roots certificate proxy)

  -- httpClientTimeout
  unfoldable pub http_client_timeout : Agent → ℕ → Act (Option HttpClient)
  http_client_timeout cfg timeout = do
    got_roots ← load_roots cfg.ca_cert_path
    match_option got_roots (pure none) λ roots. (do
      got_certificate ← load_certificate cfg.client_cert_path cfg.client_key_path
      match_option got_certificate (pure none) λ certificate.
          pure (client_by cfg timeout roots certificate (choose_proxy cfg.proxy_url)))

  -- httpClient
  unfoldable pub http_client : Agent → Act (Option HttpClient)
  http_client cfg = http_client_timeout cfg 30000
