-- ===== src/Ccb/Rotate/Order.antt =====
-- The order of texts by their code points, which is that of their bytes in UTF-8, and the equality of
-- scores.
use ccbroker.Base.{
  ◌≡◌, refl, arith, ℕ, String, Bool, true, false, not, ◌&&◌, ◌||◌, List, [], ◌∷◌, codes, ltb, eqb,
}
use ccbroker.Json.{Decimal}
use ccbroker.Anthropic.{less}

abbrev pub codes_less : List ℕ → List ℕ → Bool
codes_less [] [] = false
codes_less [] (d ∷ ds) = true
codes_less (c ∷ cs) [] = false
codes_less (c ∷ cs) (d ∷ ds) = ltb c d || (eqb c d && codes_less cs ds)

-- a < b
unfoldable pub text_less : String → String → Bool
text_less a b = codes_less (codes a) (codes b)

-- a == b
unfoldable pub same_value : Decimal → Decimal → Bool
same_value a b = not (less a b) && not (less b a)

codes_less_irrefl : (cs : List ℕ) → codes_less cs cs ≡ false
codes_less_irrefl [] = refl
codes_less_irrefl (c ∷ cs) = ground (arith, codes_less_irrefl cs)

-- a ≤ b ≤ c
codes_at_most :
    (xs ys zs : List ℕ)
    → codes_less ys xs ≡ false
    → codes_less zs ys ≡ false
    → codes_less zs xs ≡ false
codes_at_most [] ys [] h k = refl
codes_at_most [] [] (z ∷ zs) h k = refl
codes_at_most [] (y ∷ ys) (z ∷ zs) h k = refl
codes_at_most (x ∷ xs) [] zs h k = ground arith
codes_at_most (x ∷ xs) (y ∷ ys) [] h k = ground arith
codes_at_most (x ∷ xs) (y ∷ ys) (z ∷ zs) h k = ground (arith, codes_at_most xs ys zs)

pub text_less_irrefl : (a : String) → text_less a a ≡ false
unfolding text_less
text_less_irrefl a = codes_less_irrefl (codes a)

pub text_at_most :
    (a b c : String) → text_less b a ≡ false → text_less c b ≡ false → text_less c a ≡ false
unfolding text_less
text_at_most a b c h k = codes_at_most (codes a) (codes b) (codes c) h k

codes_less_asym : (xs ys : List ℕ) → codes_less xs ys ≡ true → codes_less ys xs ≡ false
codes_less_asym [] [] h = refl
codes_less_asym [] (y ∷ ys) h = refl
codes_less_asym (x ∷ xs) [] h = ground arith
codes_less_asym (x ∷ xs) (y ∷ ys) h = ground (arith, codes_less_asym xs ys)

pub text_less_asym : (a b : String) → text_less a b ≡ true → text_less b a ≡ false
unfolding text_less
text_less_asym a b h = codes_less_asym (codes a) (codes b) h
