-- ===== src/Config/Defaults.antt =====
-- What a configuration that LoadServer accepts holds.
use ccbroker.Base.{
  String, ◌≡◌, ◌≢◌, refl, sym, ap, false, some, arith, eq_iff, if◌then◌else◌, ℤ, pos, Bool-cases,
  inl, inr,
}
use ccbroker.Config.{ServerConfig, load_server, is_zero, or_default, or_number, with_defaults}

or_default-ne-empty : (s d : String) → d ≢ "" → or_default s d ≢ ""
or_default-ne-empty s d h k = ground (arith, eq_iff s "")

or_default_again : (s d : String) → d ≢ "" → or_default (or_default s d) d ≡ or_default s d
or_default_again s d h = ground (arith, eq_iff d "")

pub or_number-is_zero : (n d : ℤ) → is_zero d ≡ false → is_zero (or_number n d) ≡ false
or_number-is_zero n d h = elim (Bool-cases (is_zero n)) [ inl p ↦ rw p h | inr p ↦ rw p p ]

or_number_again : (n d : ℤ) → is_zero d ≡ false → or_number (or_number n d) d ≡ or_number n d
or_number_again n d h = ap (λ b. if b then d else or_number n d) (or_number-is_zero n d h)

defaults_again : (c : ServerConfig) → with_defaults (with_defaults c) ≡ with_defaults c
defaults_again c = rw (or_default_again c.listen ":8787" (λ h. ground (arith, eq_iff ":8787" ""))) (
    rw
      (or_default_again c.admin_listen "127.0.0.1:8788"
        (λ h. ground (arith, eq_iff "127.0.0.1:8788" "")))
      (rw (or_number_again c.refresh_skew_sec (pos 3600) refl)
        (rw (or_number_again c.usage_poll_sec (pos 300) refl) refl)))

accepted :
    (c d : ServerConfig)
    → load_server c ≡ some d
    → (c.store_path ≢ "") × (c.key_path ≢ "") × (with_defaults c ≡ d)
unfolding load_server
accepted c d h = (
  λ p. ground (arith, eq_iff c.store_path ""),
  λ p. ground (arith, eq_iff c.key_path ""),
  ground arith,
)

-- A configuration that is accepted has both paths, both addresses and both periods, and is accepted
-- again as it is.
pub load_server_complete :
    (c d : ServerConfig)
    → load_server c ≡ some d
    → (d.store_path ≢ "")
      × (d.key_path ≢ "")
      × (d.listen ≢ "")
      × (d.admin_listen ≢ "")
      × (is_zero d.refresh_skew_sec ≡ false)
      × (is_zero d.usage_poll_sec ≡ false)
      × (load_server d ≡ some d)
unfolding load_server
load_server_complete c d h =
    let (store, key, e) = accepted c d h in
    rw (sym e) (
      store,
      key,
      or_default-ne-empty c.listen ":8787" (λ p. ground (arith, eq_iff ":8787" "")),
      or_default-ne-empty c.admin_listen "127.0.0.1:8788"
          (λ p. ground (arith, eq_iff "127.0.0.1:8788" "")),
      or_number-is_zero c.refresh_skew_sec (pos 3600) refl,
      or_number-is_zero c.usage_poll_sec (pos 300) refl,
      ground (arith, eq_iff c.store_path "", eq_iff c.key_path "", defaults_again c),
    )
