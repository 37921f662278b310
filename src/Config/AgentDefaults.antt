-- ===== src/Config/AgentDefaults.antt =====
-- What an agent configuration that LoadAgent accepts holds.
use ccbroker.Base.{
  String, ◌==◌, eq_iff, ◌≡◌, ◌≢◌, ◌⊎◌, refl, true, false, not, ◌&&◌, Option, some, arith, pos,
  Bool-cases, inl, inr,
}
use ccbroker.Config.{is_zero}
use ccbroker.Config.Defaults.{or_number-is_zero}
use ccbroker.Config.AgentFile.{
  Agent, Url, effective_policy, known_policy, usable_url, with_agent_defaults, load_agent,
}

-- The three policies.
abbrev pub Policy : String → Type 0
Policy p = (p ≡ "manual") ⊎ (p ≡ "account") ⊎ (p ≡ "all")

named-Policy : (p : String) → known_policy p ≡ true → p ≢ "" → Policy p
named-Policy p h n = elim (Bool-cases (p == "manual")) [
  | inl e ↦ inl (ground (arith, eq_iff p "manual"))
  | inr e ↦ elim (Bool-cases (p == "account")) [
    | inl f ↦ inr (inl (ground (arith, eq_iff p "account")))
    | inr f ↦ inr (inr (ground (arith, eq_iff p "all", eq_iff p "")))
  ]
]

effective-Policy : (a : Agent) → known_policy a.auto_policy ≡ true → Policy (effective_policy a)
unfolding effective_policy
effective-Policy a h = elim (Bool-cases (a.auto_policy == "")) [
  | inl e ↦
      rw e (elim (Bool-cases a.auto) [ inl b ↦ rw b (inr (inl refl)) | inr b ↦ rw b (inl refl) ])
  | inr e ↦ rw e (named-Policy a.auto_policy h (λ k. ground (arith, eq_iff a.auto_policy "")))
]

proxy_usable :
    (parse_url : String → Option Url) (url : String)
    → (not (url == "") && not (usable_url (parse_url url))) ≡ false
    → (url ≡ "") ⊎ (usable_url (parse_url url) ≡ true)
proxy_usable parse_url url h = elim (Bool-cases (url == "")) [
  | inl e ↦ inl (ground (arith, eq_iff url ""))
  | inr e ↦ inr (ground arith)
]

-- A configuration that LoadAgent accepts has a token, one of the three policies in effect, periods
-- that are not zero, and a proxy that is empty or a URL of a known scheme with a host.
pub load_agent_complete :
    (parse_url : String → Option Url) (c a : Agent)
    → load_agent parse_url c ≡ some a
    → (a.token ≢ "")
      × Policy (effective_policy a)
      × (is_zero a.interval_sec ≡ false)
      × (is_zero a.watch_wait_sec ≡ false)
      × ((a.proxy_url ≡ "") ⊎ (usable_url (parse_url a.proxy_url) ≡ true))
unfolding load_agent effective_policy
load_agent_complete parse_url c a h =
    let e : with_agent_defaults c ≡ a = ground arith in
    rw⁻¹ e (
      λ p. ground (arith, eq_iff c.token ""),
      effective-Policy c (ground arith),
      or_number-is_zero c.interval_sec (pos 1800) refl,
      or_number-is_zero c.watch_wait_sec (pos 20) refl,
      proxy_usable parse_url c.proxy_url (ground arith),
    )
