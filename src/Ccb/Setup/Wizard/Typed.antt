-- ===== src/Ccb/Setup/Wizard/Typed.antt =====
-- Lines that answer the questions of `ccb setup`, and the configuration that they say.
use ccbroker.Base.{
  String, ◌==◌, ◌≡◌, refl, ◌∙◌, Bool, true, false, Option, some, List, [], ◌∷◌, ℤ, pos, trim_space,
  if◌then◌else◌, arith,
}
use ccbroker.Json.{Decimal}
use ccbroker.Config.AgentFile.{Url, Target, Agent}
use ccbroker.Ccb.Setup.Dialog.{said, Dialog, answer, ask, ask_required, ask_choice, ◌>>=◌}
use ccbroker.Ccb.Setup.Wizard.{
  web_url, filled, target_choice, policy_choice, interval_choice, default_threshold, proxy_choice,
  threshold_choice, ask_key, ask_use_file, ask_target, ask_threshold, collect,
}

-- The lines by their questions, those that are not asked included, and what the choices among them say.
pub record Typed : Type 0 where
  pub url : String
  pub token : String
  pub ca_cert : String
  pub client_cert : String
  pub client_key : String
  pub proxy : String
  pub target : String
  pub path : String
  pub interval : String
  pub policy : String
  pub threshold : String
  pub use_file : Bool
  pub every : ℤ
  pub chosen : String
  pub limit : Decimal

abbrev line_if : Bool → String → List String → List String
line_if true l rest = l ∷ rest
line_if false l rest = rest

abbrev line_unless : Bool → String → List String → List String
line_unless true l rest = rest
line_unless false l rest = l ∷ rest

-- The lines that are typed, before those of the questions behind.
unfoldable pub lines_of : Bool → Typed → List String → List String
lines_of is_darwin t rest =
    t.url
    ∷ t.token
    ∷ t.ca_cert
    ∷ t.client_cert
    ∷ line_unless (trim_space t.client_cert == "") t.client_key (
        t.proxy
        ∷ line_if is_darwin t.target (
            line_if t.use_file t.path
              (t.interval ∷ t.policy ∷ line_unless (t.chosen == "manual") t.threshold rest)))

module _ (parse_url : String → Option Url) (parse_float : String → Option Decimal)
    (is_darwin : Bool) where
  -- What is used of a menu that only a Mac has.
  abbrev TargetAs : Bool → String → Bool → Type 0
  TargetAs true l use_file = target_choice (trim_space l) ≡ some use_file
  TargetAs false l use_file = use_file ≡ true

  abbrev ThresholdAs : Bool → String → Decimal → Type 0
  ThresholdAs true l limit = limit ≡ default_threshold
  ThresholdAs false l limit =
      threshold_choice parse_url parse_float is_darwin (trim_space l) ≡ some limit

  -- Each question takes its line.
  pub record Valid (t : Typed) : Type 0 where
    pub url : web_url (trim_space t.url) ≡ true
    pub token : filled (trim_space t.token) ≡ true
    pub key : trim_space t.client_cert == "" ≡ false → filled (trim_space t.client_key) ≡ true
    pub proxy :
        proxy_choice parse_url parse_float is_darwin (trim_space t.proxy)
        ≡ some (trim_space t.proxy)
    pub target : TargetAs is_darwin t.target t.use_file
    pub interval : interval_choice (trim_space t.interval) ≡ some t.every
    pub policy : policy_choice (trim_space t.policy) ≡ some t.chosen
    pub threshold : ThresholdAs (t.chosen == "manual") t.threshold t.limit

  abbrev file_path : String → String
  file_path path = if path == "" then "~/.claude/.credentials.json" else path

  abbrev target_of : Bool → String → Target
  target_of true path = record {
    cred = "@active";
    type = "file";
    path = file_path (trim_space path);
  }
  target_of false path = record { cred = "@active"; type = "keychain"; path = "" }

  -- The configuration that the lines say.
  unfoldable pub agent_of : Typed → Agent
  agent_of t = record {
    broker_url = trim_space t.url;
    token = trim_space t.token;
    interval_sec = t.every;
    targets = target_of t.use_file t.path ∷ [];
    ca_cert_path = trim_space t.ca_cert;
    insecure = false;
    client_cert_path = trim_space t.client_cert;
    client_key_path = if trim_space t.client_cert == "" then "" else trim_space t.client_key;
    proxy_url = trim_space t.proxy;
    active_file = "";
    auto = false;
    auto_threshold = t.limit;
    auto_policy = t.chosen;
    watch_wait_sec = pos 0;
  }

  then_said :
      {A B : Type 0} (m : Dialog A) (f : A → Dialog B) (a : A) (ls rest : List String)
      → m ls ≡ said a rest
      → (m >>= f) ls ≡ f a rest
  unfolding ◌>>=◌
  then_said m f a ls rest e = rw e refl

  said_ask : (l : String) (rest : List String) → ask (l ∷ rest) ≡ said (trim_space l) rest
  unfolding ask
  said_ask l rest = refl

  said_required :
      (accepts : String → Bool) (l : String) (rest : List String)
      → accepts (trim_space l) ≡ true
      → ask_required accepts (l ∷ rest) ≡ said (trim_space l) rest
  unfolding ask_required
  said_required accepts l rest e = rw e refl

  said_choice :
      {A : Type 0} (choice : String → Option A) (l : String) (a : A) (rest : List String)
      → choice (trim_space l) ≡ some a
      → ask_choice choice (l ∷ rest) ≡ said a rest
  unfolding ask_choice
  said_choice choice l a rest e = ground (arith, e)

  said_key :
      (cert l : String) (b : Bool) (rest : List String)
      → cert == "" ≡ b
      → (cert == "" ≡ false → filled (trim_space l) ≡ true)
      → ask_key cert (line_unless b l rest) ≡ said (if b then "" else trim_space l) rest
  unfolding ask_key answer
  said_key cert l true rest e k = rw e refl
  said_key cert l false rest e k = rw e (said_required filled l rest (k e))

  said_use_file :
      (mac : Bool) (l : String) (use_file : Bool) (rest : List String)
      → is_darwin ≡ mac
      → TargetAs mac l use_file
      → ask_use_file parse_url parse_float is_darwin (line_if mac l rest) ≡ said use_file rest
  unfolding ask_use_file answer
  said_use_file true l use_file rest e k = rw e (said_choice target_choice l use_file rest k)
  said_use_file false l use_file rest e k = rw (e, k) refl

  said_target :
      (use_file : Bool) (l : String) (rest : List String)
      → ask_target use_file (line_if use_file l rest) ≡ said (target_of use_file l) rest
  unfolding ask_target answer ask ◌>>=◌
  said_target true l rest = refl
  said_target false l rest = refl

  said_threshold :
      (policy l : String) (manual : Bool) (limit : Decimal) (rest : List String)
      → policy == "manual" ≡ manual
      → ThresholdAs manual l limit
      → ask_threshold parse_url parse_float is_darwin policy (line_unless manual l rest)
        ≡ said limit rest
  unfolding ask_threshold answer
  said_threshold policy l true limit rest e k = rw (e, k) refl
  said_threshold policy l false limit rest e k = rw e (said_choice _ l limit rest k)

  -- The wizard takes just these lines, and says what they say.
  pub collect-lines_of :
      (t : Typed) (rest : List String)
      → Valid t
      → collect parse_url parse_float is_darwin (lines_of is_darwin t rest) ≡ said (agent_of t) rest
  unfolding collect lines_of agent_of answer
  collect-lines_of t rest v =
      then_said _ _ _ _ _ (said_required web_url t.url _ v.url)
      ∙ then_said _ _ _ _ _ (said_required filled t.token _ v.token)
      ∙ then_said _ _ _ _ _ (said_ask t.ca_cert _)
      ∙ then_said _ _ _ _ _ (said_ask t.client_cert _)
      ∙ then_said _ _ _ _ _ (said_key (trim_space t.client_cert) t.client_key _ _ refl v.key)
      ∙ then_said _ _ _ _ _ (said_choice _ t.proxy (trim_space t.proxy) _ v.proxy)
      ∙ then_said _ _ _ _ _ (said_use_file is_darwin t.target t.use_file _ refl v.target)
      ∙ then_said _ _ _ _ _ (said_target t.use_file t.path _)
      ∙ then_said _ _ _ _ _ (said_choice interval_choice t.interval t.every _ v.interval)
      ∙ then_said _ _ _ _ _ (said_choice policy_choice t.policy t.chosen _ v.policy)
      ∙ then_said _ _ _ _ _ (said_threshold t.chosen t.threshold _ t.limit rest refl v.threshold)
