-- ===== src/Anthropic/Order.antt =====
-- Utilizations are ordered: `less` (the source's < on two scores) is a strict order, and what is not
-- less is at most.
use Prim.Native.Nat.{ℕ, zero, suc, ◌+◌, ◌*◌, ◌^◌, ◌<◌, ◌≤◌}
use native.Mathlib.Nat.{mul-lt-mul_of_pos_right, lt_of_mul-lt-mul_right, mul-le-mul_right}
use ccbroker.Base.{◌≡◌, true, false, ℤ, pos, negsuc, ◌*ℤ◌, pos_part, neg_part, arith}
use ccbroker.Json.{Decimal}
use ccbroker.Anthropic.Quota.{less}

pow_pos : (n : ℕ) → 0 < 10 ^ n
pow_pos zero = omega arith
pow_pos (suc n) = omega (arith, pow_pos n)

*ℤ-pos :
    (a : ℤ) (n : ℕ)
    → pos_part (a *ℤ pos n) + neg_part a * n ≡ neg_part (a *ℤ pos n) + pos_part a * n
unfolding ◌*ℤ◌
*ℤ-pos (pos a) n = ground arith
*ℤ-pos (negsuc a) n = ground arith

-- a < b, of decimals with a common factor multiplied out
abbrev Below : Decimal → Decimal → Type 0
Below a b =
    pos_part a.mantissa * 10 ^ b.scale + neg_part b.mantissa * 10 ^ a.scale
    < pos_part b.mantissa * 10 ^ a.scale + neg_part a.mantissa * 10 ^ b.scale

less-Below : (a b : Decimal) → less a b ≡ true → Below a b
unfolding less
less-Below a b h =
    ground (arith, *ℤ-pos a.mantissa (10 ^ b.scale), *ℤ-pos b.mantissa (10 ^ a.scale))

Below-less : (a b : Decimal) → Below a b → less a b ≡ true
unfolding less
Below-less a b h =
    ground (arith, *ℤ-pos a.mantissa (10 ^ b.scale), *ℤ-pos b.mantissa (10 ^ a.scale))

not-Below : (a b : Decimal) → less a b ≡ false → Below a b → ⊥
not-Below a b h k = ground (arith, Below-less a b k)

-- The cross multiplication of a < b ≤ c and of a ≤ b < c, with the factor of b divided out.
cross_left :
    (a p b q c r x y z : ℕ)
    → 0 < x
    → 0 < z
    → a * y + q * x < b * x + p * y
    → b * z + r * y ≤ c * y + q * z
    → a * z + r * x < c * x + p * z
cross_left a p b q c r x y z hx hz h k =
    lt_of_mul-lt-mul_right y (omega (arith, mul-lt-mul_of_pos_right h hz, mul-le-mul_right x k))

cross_right :
    (a p b q c r x y z : ℕ)
    → 0 < x
    → 0 < z
    → a * y + q * x ≤ b * x + p * y
    → b * z + r * y < c * y + q * z
    → a * z + r * x < c * x + p * z
cross_right a p b q c r x y z hx hz h k =
    lt_of_mul-lt-mul_right y (omega (arith, mul-le-mul_right z h, mul-lt-mul_of_pos_right k hx))

module _ (a b c : Decimal) where
  -- a < b ≤ c
  pub less_at_most : less a b ≡ true → less c b ≡ false → less a c ≡ true
  less_at_most h k = Below-less a c (
      cross_left (pos_part a.mantissa) (neg_part a.mantissa) (pos_part b.mantissa)
        (neg_part b.mantissa) (pos_part c.mantissa) (neg_part c.mantissa) (10 ^ a.scale)
        (10 ^ b.scale) (10 ^ c.scale) (pow_pos a.scale) (pow_pos c.scale) (less-Below a b h)
        (ground (arith, not-Below c b k)))

  -- a ≤ b < c
  pub at_most_less : less b a ≡ false → less b c ≡ true → less a c ≡ true
  at_most_less h k = Below-less a c (
      cross_right (pos_part a.mantissa) (neg_part a.mantissa) (pos_part b.mantissa)
        (neg_part b.mantissa) (pos_part c.mantissa) (neg_part c.mantissa) (10 ^ a.scale)
        (10 ^ b.scale) (10 ^ c.scale) (pow_pos a.scale) (pow_pos c.scale)
        (ground (arith, not-Below b a h)) (less-Below b c k))

pub less_irrefl : (a : Decimal) → less a a ≡ false
less_irrefl a = ground (arith, less-Below a a)

-- a < b < c
pub less_trans : (a b c : Decimal) → less a b ≡ true → less b c ≡ true → less a c ≡ true
less_trans a b c h k = less_at_most a b c h (ground (arith, less-Below c b, less-Below b c k))

-- a ≤ b ≤ c
pub at_most_trans : (a b c : Decimal) → less b a ≡ false → less c b ≡ false → less c a ≡ false
at_most_trans a b c h k = ground (arith, less_at_most c a b)
