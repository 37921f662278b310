-- ===== src/Base/Lists.antt =====
-- Lists measured by native numbers, under the library's names.
use Prim.Native.Nat.{ℕ, zero, suc, ◌+◌, ◌-◌, ◌≤◌}
use mathlib.Core.Path.{◌≡◌, refl, sym, ap, ◌∙◌}
use mathlib.Core.Logic.{inl, inr}
use mathlib.Core.Bool.{Bool, true}
use mathlib.Core.List.{Memᴰ, List, [], ◌∷◌, ◌++◌}
use native.Mathlib.Omega.{arith}
use ccbroker.Base.Tests.{Bool-cases, if◌then◌else◌}

module _ {ℓ} {A : Type ℓ} where
  abbrev pub length : List A → ℕ
  length [] = 0
  length (x ∷ xs) = suc (length xs)

  abbrev pub drop : ℕ → List A → List A
  drop zero xs = xs
  drop (suc n) [] = []
  drop (suc n) (x ∷ xs) = drop n xs

  -- The entries that pass a test, as the append loops of the source collect them.
  abbrev pub keep : (A → Bool) → List A → List A
  keep p [] = []
  keep p (x ∷ xs) = let rest = keep p xs in if p x then x ∷ rest else rest

  pub length-append : (xs ys : List A) → length (xs ++ ys) ≡ length xs + length ys
  length-append [] ys = omega arith
  length-append (x ∷ xs) ys = omega (arith, length-append xs ys)

  pub length-drop : (n : ℕ) (xs : List A) → length (drop n xs) ≡ length xs - n
  length-drop zero xs = omega arith
  length-drop (suc n) [] = omega arith
  length-drop (suc n) (x ∷ xs) = omega (arith, length-drop n xs)

  pub length-keep-le : (p : A → Bool) (xs : List A) → length (keep p xs) ≤ length xs
  length-keep-le p [] = omega arith
  length-keep-le p (x ∷ xs) = ground (arith, length-keep-le p xs)

  pub length_zero : (xs : List A) → length xs ≤ 0 → xs ≡ []
  length_zero [] h = refl
  length_zero (x ∷ xs) h = absurd (omega arith)

  -- The first entry that is kept is one of the list that passes the test.
  pub keep-head :
      (p : A → Bool) (xs rest : List A) (a : A) → keep p xs ≡ a ∷ rest → Memᴰ a xs × (p a ≡ true)
  keep-head p [] rest a h = ground arith
  keep-head p (x ∷ xs) rest a h = elim (Bool-cases (p x)) [
    | inl q ↦ let same : x ≡ a = ground arith in (Memᴰ.head (sym same), ap p (sym same) ∙ q)
    | inr q ↦ let (m, k) = keep-head p xs rest a (ground arith) in (Memᴰ.tail m, k)
  ]

  -- An entry that passes is the one that is kept, if no more than one is.
  pub keep-sole :
      (p : A → Bool) (xs : List A) (a : A)
      → Memᴰ a xs
      → p a ≡ true
      → length (keep p xs) ≤ 1
      → keep p xs ≡ a ∷ []
  keep-sole p [] a m h n = elim m [ ]
  keep-sole p (x ∷ xs) a (Memᴰ.head e) h n =
      let rest : keep p xs ≡ [] = length_zero (keep p xs) (ground (arith, ap p e)) in
      ground (arith, ap p e)
  keep-sole p (x ∷ xs) a (Memᴰ.tail m) h n =
      let rest : keep p xs ≡ a ∷ [] = keep-sole p xs a m h (ground arith) in ground arith
