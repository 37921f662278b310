-- ===== src/Ccb/Setup/Wizard/Answers.antt =====
-- What holds of the configuration that `ccb setup` collects.
use mathlib.Core.Path.{subst}
use mathlib.Core.Option.{some-injective}
use ccbroker.Base.{
  ◌*ℤ◌, sym, if◌then◌else◌, ◌||◌, String, ◌==◌, ◌≡◌, refl, Bool, true, false, Option, none, some,
  List, ℤ, pos, ltb_ℤ, arith, inl, inr, ◌⊎◌,
}
use ccbroker.Json.{Decimal}
use ccbroker.Config.AgentDefaults.{Policy}
use ccbroker.Anthropic.{less}
use ccbroker.Ccb.Broker.{parse_gen as parse_int}
use ccbroker.Config.AgentFile.{Url, Agent, usable_url}
use ccbroker.Ccb.Setup.Dialog.{Reply, said, ended, hangs}
use ccbroker.Ccb.Setup.Dialog.Asks.{
  Sound, Asks, Asks-bind, Asks-answer, Asks-if, Asks-weaken, Asks-choice, Asks-ask, Asks-required,
}
use ccbroker.Ccb.Setup.Wizard.{
  web_url, filled, target_choice, policy_choice, interval_choice, positive, default_threshold,
  in_range, ranged, proxy_choice, threshold_choice, file_target, keychain_target, ask_key,
  ask_use_file, ask_target, ask_threshold, collect,
}

if_some :
    {A : Type 0} (b : Bool) (x : A) (o : Option A) (a : A)
    → (if b then some x else o) ≡ some a
    → ((b ≡ true) × (x ≡ a)) ⊎ (o ≡ some a)
if_some true x o a h = inl (refl, some-injective _ _ h)
if_some false x o a h = inr h

policy_choice-Policy : (s p : String) → policy_choice s ≡ some p → Policy p
policy_choice-Policy s p h = elim (if_some (s == "" || s == "1") "manual" _ p h) [
  | inl e ↦ inl (sym e.1)
  | inr h2 ↦ elim (if_some (s == "2") "account" _ p h2) [
    | inl e ↦ inr (inl (sym e.1))
    | inr h3 ↦ elim (if_some (s == "3") "all" none p h3) [
      | inl e ↦ inr (inr (sym e.1))
      | inr h4 ↦ absurd (ground arith)
    ]
  ]
]

abbrev pub Positive : ℤ → Type 0
Positive n = ltb_ℤ (pos 0) n ≡ true

positive-Positive : (o : Option ℤ) (n : ℤ) → positive o ≡ some n → Positive n
positive-Positive none n h = ground arith
positive-Positive (some m) n h = ground arith

interval_choice-Positive : (s : String) (n : ℤ) → interval_choice s ≡ some n → Positive n
interval_choice-Positive s n h = elim (if_some (s == "") (pos 1800) _ n h) [
  | inl e ↦ rw (sym e.1) refl
  | inr k ↦ positive-Positive (parse_int s) n k
]

abbrev pub InRange : Decimal → Type 0
InRange t = in_range t ≡ true

ranged-InRange : (o : Option Decimal) (t : Decimal) → ranged o ≡ some t → InRange t
ranged-InRange none t h = absurd (ground arith)
ranged-InRange (some u) t h = elim (if_some (in_range u) u none t h) [
  | inl e ↦ subst InRange e.1 e.0
  | inr k ↦ absurd (ground arith)
]

default-InRange : InRange default_threshold
unfolding less ◌*ℤ◌
default-InRange = refl

Asks-ask_key : (cert : String) → Asks (ask_key cert) (λ s. Unit)
unfolding ask_key
Asks-ask_key cert =
    Asks-if _ _ _ (λ e. Asks-answer "" tt) (λ e. Asks-weaken (λ s h. tt) (Asks-required filled))

Asks-ask_target : (file : Bool) → Asks (ask_target file) (λ t. Unit)
unfolding ask_target
Asks-ask_target true = Asks-bind _ Asks-ask (λ path u. Asks-answer (file_target path) tt)
Asks-ask_target false = Asks-answer keychain_target tt

module _ (parse_url : String → Option Url) (parse_float : String → Option Decimal)
    (is_darwin : Bool) where
  abbrev pub Proxy : String → Type 0
  Proxy s = (s ≡ "") ⊎ (usable_url (parse_url s) ≡ true)

  proxy_choice-Proxy :
      (s p : String) → proxy_choice parse_url parse_float is_darwin s ≡ some p → Proxy p
  proxy_choice-Proxy s p h = elim (if_some (s == "") "" _ p h) [
    | inl e ↦ inl (sym e.1)
    | inr k ↦ elim (if_some (usable_url (parse_url s)) s none p k) [
      | inl e ↦ inr (subst (λ u. usable_url (parse_url u) ≡ true) e.1 e.0)
      | inr l ↦ absurd (ground arith)
    ]
  ]

  threshold_choice-InRange :
      (s : String) (t : Decimal)
      → threshold_choice parse_url parse_float is_darwin s ≡ some t
      → InRange t
  threshold_choice-InRange s t h = elim (if_some (s == "") default_threshold _ t h) [
    | inl e ↦ subst InRange e.1 default-InRange
    | inr k ↦ ranged-InRange (parse_float s) t k
  ]

  -- A configuration as the wizard makes it.
  pub record Complete (a : Agent) : Type 0 where
    pub broker : web_url a.broker_url ≡ true
    pub token : filled a.token ≡ true
    pub proxy : Proxy a.proxy_url
    pub interval : Positive a.interval_sec
    pub policy : Policy a.auto_policy
    pub threshold : InRange a.auto_threshold
    pub plain : (a.active_file ≡ "") × (a.auto ≡ false) × (a.watch_wait_sec ≡ pos 0)

  Asks-ask_use_file : Asks (ask_use_file parse_url parse_float is_darwin) (λ b. Unit)
  unfolding ask_use_file
  Asks-ask_use_file =
      Asks-if _ _ _ (λ e. Asks-choice target_choice false (λ s b h. tt) refl)
        (λ e. Asks-answer true tt)

  Asks-ask_threshold :
      (policy : String) → Asks (ask_threshold parse_url parse_float is_darwin policy) InRange
  unfolding ask_threshold
  Asks-ask_threshold policy =
      Asks-if _ _ _ (λ e. Asks-answer default_threshold default-InRange)
        (λ e. Asks-choice _ default_threshold threshold_choice-InRange refl)

  pub Asks-collect : Asks (collect parse_url parse_float is_darwin) Complete
  unfolding collect
  Asks-collect = Asks-bind _ (Asks-required web_url) λ url broker.
      Asks-bind _ (Asks-required filled) λ t token. Asks-bind _ Asks-ask λ ca u1.
        Asks-bind _ Asks-ask λ cert u2. Asks-bind _ (Asks-ask_key cert) λ key u3.
          Asks-bind _ (Asks-choice _ "" proxy_choice-Proxy refl) λ proxy usable.
            Asks-bind _ Asks-ask_use_file λ file u4. Asks-bind _ (Asks-ask_target file) λ target u5.
              Asks-bind _ (Asks-choice _ (pos 1800) interval_choice-Positive refl) λ n positive.
                Asks-bind _ (Asks-choice _ "manual" policy_choice-Policy refl) λ p policy.
                  Asks-bind _ (Asks-ask_threshold p) λ th ranged. Asks-answer _ (record {
                    broker = broker;
                    token = token;
                    proxy = usable;
                    interval = positive;
                    policy = policy;
                    threshold = ranged;
                    plain = (refl, refl, refl);
                  })

  -- However many lines are typed and whatever they are, the questions of the wizard end, with a
  -- configuration or with the error that the input ended.
  pub collect_ends :
      (ls : List String)
      → ((a : Agent) × (rest : List String) × (collect parse_url parse_float is_darwin ls
            ≡ said a rest))
        ⊎ (collect parse_url parse_float is_darwin ls ≡ ended)
  collect_ends ls = ends (collect parse_url parse_float is_darwin ls) refl (Asks-collect.at ls)
    where
      ends :
          (r : Reply Agent)
          → collect parse_url parse_float is_darwin ls ≡ r
          → Sound Complete r
          → ((a : Agent) × (rest : List String) × (collect parse_url parse_float is_darwin ls
                ≡ said a rest))
            ⊎ (collect parse_url parse_float is_darwin ls ≡ ended)
      ends (said a rest) e p = inl (a, rest, e)
      ends ended e p = inr e
      ends hangs e p = absurd p
