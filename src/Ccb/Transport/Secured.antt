-- ===== src/Ccb/Transport/Secured.antt =====
-- What a client is built from is what the configuration asks for (httpClientTimeout).
use ccbroker.Base.{
  ℕ, String, ◌==◌, ◌≡◌, refl, sym, ap, ◌∙◌, Bool, true, false, ◌&&◌, ◌||◌, Option, none, some, List,
  if◌then◌else◌, arith, match_option, pure, ◌>>=◌, when◌then◌else◌, Ends, Ends-pure, Ends-if,
  Ends-match, Ends-bind,
}
use ccbroker.Config.AgentFile.{Agent, Url}
use ccbroker.Ccb.State.{World, Machine, read_script}
use ccbroker.Ccb.Local.{expand_home}
use ccbroker.Ccb.Transport.{
  Library, Proxy, fixed, environment, HttpClient, load_roots, load_pair, load_certificate,
  choose_proxy, http_client_timeout, client_by, as_proxy, as_certificate,
}

module _ (w : World) (lib : Library) where
  -- The roots, the certificate and the proxy that the configuration asks for.
  -- Roots and a certificate are what the configured files hold at the moment that they are read.
  abbrev pub RootsFor : String → Machine → Option (List ℕ) → Type 0
  RootsFor path s roots =
      (path == "" ≡ true → roots ≡ none)
      × (path == "" ≡ false
          → (pem : List ℕ) × (roots ≡ some pem)
            × ((read_script w (expand_home w path) s).0 ≡ some pem)
            × (lib.has_certs pem ≡ true))

  abbrev pub PairAt : String → String → Machine → List ℕ × List ℕ → Type 0
  PairAt cert_file key_file s (cert, key) =
      ((read_script w cert_file s).0 ≡ some cert)
      × ((read_script w key_file (read_script w cert_file s).1).0 ≡ some key)
      × (lib.pairs cert key ≡ true)

  abbrev pub CertificateFor : String → String → Machine → Option (List ℕ × List ℕ) → Type 0
  CertificateFor cert_path key_path s certificate =
      (cert_path == "" && key_path == "" ≡ true → certificate ≡ none)
      × (cert_path == "" && key_path == "" ≡ false
          → (cert_path == "" || key_path == "" ≡ false)
            × (cert : List ℕ) × (key : List ℕ) × (certificate ≡ some (cert, key))
            × PairAt (expand_home w cert_path) (expand_home w key_path) s (cert, key))

  abbrev pub ProxyFor : String → Proxy → Type 0
  ProxyFor url proxy =
      (url == "" ≡ true → proxy ≡ environment)
      × (url == "" ≡ false → (u : Url) × (lib.parse_url url ≡ some u) × (proxy ≡ fixed u))

  -- A client that is built so, from a machine that is in the state `s` at first.
  pub record Secured (cfg : Agent) (s : Machine) (c : HttpClient) : Type 0 where
    pub insecure : c.insecure ≡ cfg.insecure
    pub roots : RootsFor cfg.ca_cert_path s c.roots
    pub certificate :
        CertificateFor cfg.client_cert_path cfg.client_key_path
          (load_roots w lib cfg.ca_cert_path s).1
          c.certificate
    pub proxy : ProxyFor cfg.proxy_url c.proxy

  -- A result, if there is one, has the property.
  abbrev IfAny : {A : Type 0} → (A → Type 0) → Option A → Type 0
  IfAny P none = Unit
  IfAny P (some a) = P a

  -- A read from a known state.
  Ends-read :
      (path : String) (s0 : Machine)
      → Ends
          (λ s. s ≡ s0)
          (read_script w path)
          (λ got s. (got ≡ (read_script w path s0).0) × (s ≡ (read_script w path s0).1))
  Ends-read path s0 = record {
    at = λ s e. (ap (λ x. (read_script w path x).0) e, ap (λ x. (read_script w path x).1) e);
  }

  Ends-load_roots :
      (path : String) (s0 : Machine)
      → Ends (λ s. s ≡ s0) (load_roots w lib path) (λ r s. IfAny (RootsFor path s0) r)
  unfolding load_roots
  Ends-load_roots path s0 =
      Ends-if _ _ _ (λ e. Ends-pure _ (λ s p. (λ f. refl, λ f. ground (arith, e, f))))
        (λ e. Ends-bind _ _ (Ends-read (expand_home w path) s0) λ got.
          Ends-match got _ _ (λ f. Ends-pure none (λ s p. tt))
            λ pem f.
              Ends-if (lib.has_certs pem) _ _
                (λ g.
                  Ends-pure _
                    (λ s p. (λ h. ground (arith, e, h), λ h. (pem, refl, sym p.0 ∙ f, g))))
                (λ g. Ends-pure none (λ s p. tt)))

  Ends-load_pair :
      (cert_path key_path : String) (s0 : Machine)
      → Ends
          (λ s. s ≡ s0)
          (load_pair w lib cert_path key_path)
          (λ r s. IfAny (PairAt cert_path key_path s0) r)
  unfolding load_pair
  Ends-load_pair cert_path key_path s0 = Ends-bind _ _ (Ends-read cert_path s0) λ got_cert.
      Ends-match got_cert _ _ (λ e. Ends-pure none (λ s p. tt))
        λ cert e. record { at = λ s p. (Ends-key cert (sym p.0 ∙ e)).at s p.1 }
    where
      Ends-key :
          (cert : List ℕ)
          → (read_script w cert_path s0).0 ≡ some cert
          → Ends
              (λ s. s ≡ (read_script w cert_path s0).1)
              (read_script w key_path >>= λ got_key.
                match_option got_key
                  (pure none)
                  λ key. when lib.pairs cert key then pure (some (cert, key)) else pure none)
              (λ r s. IfAny (PairAt cert_path key_path s0) r)
      Ends-key cert c = Ends-bind _ _ (Ends-read key_path _) λ got_key.
          Ends-match got_key _ _ (λ f. Ends-pure none (λ s p. tt))
            λ key f.
              Ends-if (lib.pairs cert key) _ _ (λ g. Ends-pure _ (λ s p. (c, sym p.0 ∙ f, g)))
                (λ g. Ends-pure none (λ s p. tt))

  proxy_lem :
      (url : String) (b : Bool) (o : Option Url)
      → url == "" ≡ b
      → lib.parse_url url ≡ o
      → IfAny (ProxyFor url) (if b then some environment else as_proxy w lib o)
  proxy_lem url true o e f = (λ h. refl, λ h. ground (arith, e, h))
  proxy_lem url false none e f = tt
  proxy_lem url false (some u) e f = (λ h. ground (arith, e, h), λ h. (u, f, refl))

  choose_proxy_lem : (url : String) → IfAny (ProxyFor url) (choose_proxy w lib url)
  unfolding choose_proxy
  choose_proxy_lem url = proxy_lem url _ _ refl refl

  Ends-load_certificate :
      (cert_path key_path : String) (s0 : Machine)
      → Ends
          (λ s. s ≡ s0)
          (load_certificate w lib cert_path key_path)
          (λ r s. IfAny (CertificateFor cert_path key_path s0) r)
  unfolding load_certificate
  Ends-load_certificate cert_path key_path s0 =
      Ends-if _ _ _ (λ e. Ends-pure _ (λ s p. (λ h. refl, λ h. ground (arith, e, h))))
        (λ e.
          Ends-if _ _ _ (λ f. Ends-pure none (λ s p. tt))
            (λ f.
              Ends-bind _ _ (Ends-load_pair _ _ s0) λ got. Ends-pure _ (λ s p. pair_lem got e f p)))
    where
      pair_lem :
          (got : Option (List ℕ × List ℕ))
          → cert_path == "" && key_path == "" ≡ false
          → cert_path == "" || key_path == "" ≡ false
          → IfAny (PairAt (expand_home w cert_path) (expand_home w key_path) s0) got
          → IfAny (CertificateFor cert_path key_path s0) (as_certificate w lib got)
      pair_lem none e f p = tt
      pair_lem (some (cert, key)) e f p = (λ h. ground (arith, e, h), λ h. (f, cert, key, refl, p))

  secured_lem :
      (cfg : Agent) (timeout : ℕ) (s : Machine) (roots : Option (List ℕ))
      (certificate : Option (List ℕ × List ℕ)) (proxy : Option Proxy)
      → RootsFor cfg.ca_cert_path s roots
      → CertificateFor cfg.client_cert_path cfg.client_key_path
          (load_roots w lib cfg.ca_cert_path s).1
          certificate
      → IfAny (ProxyFor cfg.proxy_url) proxy
      → IfAny (Secured cfg s) (client_by w lib cfg timeout roots certificate proxy)
  secured_lem cfg timeout s roots certificate none r c p = tt
  secured_lem cfg timeout s roots certificate (some x) r c p = record {
    insecure = refl;
    roots = r;
    certificate = c;
    proxy = p;
  }

  Ends-roots :
      (path : String) (s0 : Machine)
      → Ends
          (λ s. s ≡ s0)
          (load_roots w lib path)
          (λ r s. IfAny (RootsFor path s0) r × (s ≡ (load_roots w lib path s0).1))
  Ends-roots path s0 = record {
    at = λ s e. ((Ends-load_roots path s0).at s e, ap (λ x. (load_roots w lib path x).1) e);
  }

  Ends-http_client :
      (cfg : Agent) (timeout : ℕ) (s0 : Machine)
      → Ends (λ s. s ≡ s0) (http_client_timeout w lib cfg timeout) (λ r s. IfAny (Secured cfg s0) r)
  unfolding http_client_timeout
  Ends-http_client cfg timeout s0 = Ends-bind _ _ (Ends-roots cfg.ca_cert_path s0) λ got.
      Ends-match got _ _ (λ e. Ends-pure none (λ s p. tt))
        λ roots e. record { at = λ s p. (Ends-rest roots (rw e at p.0)).at s p.1 }
    where
      Ends-rest :
          (roots : Option (List ℕ))
          → RootsFor cfg.ca_cert_path s0 roots
          → Ends
              (λ s. s ≡ (load_roots w lib cfg.ca_cert_path s0).1)
              (load_certificate w lib cfg.client_cert_path cfg.client_key_path >>= λ got.
                match_option got (pure none) λ certificate. pure (
                  client_by w lib cfg timeout roots certificate (choose_proxy w lib cfg.proxy_url)))
              (λ r s. IfAny (Secured cfg s0) r)
      Ends-rest roots known = Ends-bind _ _ (Ends-load_certificate _ _ _) λ got.
          Ends-match got _ _ (λ e. Ends-pure none (λ s p. tt))
            λ certificate e. Ends-pure _ (λ s found.
              secured_lem cfg timeout s0 roots certificate _ known (rw e at found)
                (choose_proxy_lem cfg.proxy_url))

  some-IfAny : {A : Type 0} (P : A → Type 0) (o : Option A) (a : A) → o ≡ some a → IfAny P o → P a
  some-IfAny P o a e = rw e (λ p. p)

  -- A client for the broker is built only as the configuration says: it checks the broker's
  -- certificate unless that is switched off, against the certificates that the configured file holds
  -- when it is read and no others if one is configured, with the client certificate and the key that
  -- the two configured files hold then if either path is configured, and through the configured
  -- proxy. What cannot be loaded is an error, and never left out.
  pub http_client-Secured :
      (cfg : Agent) (timeout : ℕ) (c : HttpClient) (s : Machine)
      → (http_client_timeout w lib cfg timeout s).0 ≡ some c
      → Secured cfg s c
  http_client-Secured cfg timeout c s built =
      some-IfAny (Secured cfg s) _ c built ((Ends-http_client cfg timeout s).at s refl)
