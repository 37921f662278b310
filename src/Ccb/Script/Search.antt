-- ===== src/Ccb/Script/Search.antt =====
-- Where a text is first found in another, and the parts before and behind it.
use ccbroker.Base.{
  not, Bool-cases, inl, inr, ℕ, suc, ◌+◌, ◌≤◌, eqb, ◌≡◌, refl, ap, sym, Bool, true, ◌&&◌, Option,
  none, some, List, [], ◌∷◌, ◌++◌, length, drop, begins_with, arith, length-append,
}
use ccbroker.Ccb.Script.{newline, index, take, trim_newline, shift}

pub take-append : (xs ys : List ℕ) → take (length xs) (xs ++ ys) ≡ xs
take-append [] ys = refl
take-append (x ∷ xs) ys = ap (λ zs. x ∷ zs) (take-append xs ys)

pub drop-append : (xs ys : List ℕ) → drop (length xs) (xs ++ ys) ≡ ys
drop-append [] ys = refl
drop-append (x ∷ xs) ys = drop-append xs ys

pub append_assoc : (xs ys zs : List ℕ) → (xs ++ ys) ++ zs ≡ xs ++ (ys ++ zs)
append_assoc [] ys zs = refl
append_assoc (x ∷ xs) ys zs = ap (λ l. x ∷ l) (append_assoc xs ys zs)

pub append-nil : (xs : List ℕ) → xs ++ [] ≡ xs
append-nil [] = refl
append-nil (x ∷ xs) = ap (λ l. x ∷ l) (append-nil xs)

-- A text that begins with another is that other and the rest.
begins_with-split : (cs m : List ℕ) → begins_with cs m ≡ true → cs ≡ m ++ drop (length m) cs
begins_with-split cs [] h = refl
begins_with-split [] (d ∷ m) h = ground arith
begins_with-split (c ∷ cs) (d ∷ m) h = ground (arith, begins_with-split cs m)

begins_with-append : (m ys : List ℕ) → begins_with (m ++ ys) m ≡ true
begins_with-append [] ys = refl
begins_with-append (d ∷ m) ys = ground (arith, begins_with-append m ys)

-- What follows the first |m| bytes does not matter.
begins_with-prefix :
    (xs ys zs m : List ℕ)
    → length m ≤ length xs
    → begins_with (xs ++ ys) m ≡ begins_with (xs ++ zs) m
begins_with-prefix xs ys zs [] h = refl
begins_with-prefix [] ys zs (d ∷ m) h = absurd (omega arith)
begins_with-prefix (x ∷ xs) ys zs (d ∷ m) h =
    ap (λ b. eqb x d && b) (begins_with-prefix xs ys zs m (omega arith))

-- The place of `m` where it is found is followed by it.
index-shift : (o : Option ℕ) (i : ℕ) → shift o ≡ some i → (n : ℕ) × (o ≡ some n) × (i ≡ suc n)
index-shift none i h = ground arith
index-shift (some n) i h = (n, refl, ground arith)

pub index-split :
    (m cs : List ℕ) (i : ℕ)
    → index m cs ≡ some i
    → (length (take i cs) ≡ i) × (cs ≡ take i cs ++ (m ++ drop (length m) (drop i cs)))
index-split m [] i h = ground arith
index-split m (c ∷ cs) i h = elim (Bool-cases (begins_with (c ∷ cs) m)) [
  | inl p ↦
      let first : 0 ≡ i = ground arith in rw (sym first) (refl, begins_with-split (c ∷ cs) m p)
  | inr p ↦
      let (n, found, later) = index-shift (index m cs) i (ground arith) in
      let (len, split) = index-split m cs n found in rw later (ap suc len, ap (λ l. c ∷ l) split)
]

begins_with-inside :
    (xs m : List ℕ) (d : ℕ) (ys zs : List ℕ)
    → begins_with (xs ++ (d ∷ m ++ ys)) m ≡ begins_with (xs ++ (d ∷ m ++ zs)) m
begins_with-inside xs m d ys zs =
    rw⁻¹ (append_assoc xs (d ∷ m) ys, append_assoc xs (d ∷ m) zs)
      (begins_with-prefix (xs ++ (d ∷ m)) ys zs m (omega (arith, length-append xs (d ∷ m))))

-- The place of a text depends only on what stands before it.
pub index-prefix :
    (m : List ℕ) (d : ℕ) (xs ys zs : List ℕ)
    → index (d ∷ m) (xs ++ (d ∷ m ++ ys)) ≡ index (d ∷ m) (xs ++ (d ∷ m ++ zs))
index-prefix m d [] ys zs = rw (begins_with-append (d ∷ m) ys, begins_with-append (d ∷ m) zs) refl
index-prefix m d (x ∷ xs) ys zs =
    rw (begins_with-inside xs m d ys zs, index-prefix m d xs ys zs) refl

-- A text without newlines is not found across one.
abbrev pub no_newline : List ℕ → Bool
no_newline [] = true
no_newline (c ∷ cs) = not (eqb newline c) && no_newline cs

begins_with-line :
    (xs ys m : List ℕ) → no_newline m ≡ true → begins_with (xs ++ newline ∷ ys) m ≡ begins_with xs m
begins_with-line xs ys [] h = ground arith
begins_with-line [] ys (d ∷ m) h = ground arith
begins_with-line (x ∷ xs) ys (d ∷ m) h =
    ap (λ b. eqb x d && b) (begins_with-line xs ys m (ground arith))

-- A text that is not in the lines before is found behind them.
pub index-line :
    (d : ℕ) (m xs ys : List ℕ) (i : ℕ)
    → no_newline (d ∷ m) ≡ true
    → index (d ∷ m) xs ≡ none
    → index (d ∷ m) ys ≡ some i
    → index (d ∷ m) (xs ++ newline ∷ ys) ≡ some (length xs + suc i)
index-line d m [] ys i n h k = ground (arith, ap shift k)
index-line d m (x ∷ xs) ys i n h k =
    ground (arith, begins_with-line xs ys m, index-line d m xs ys i n)

pub trim_newline-append : (xs : List ℕ) → trim_newline (xs ++ newline ∷ []) ≡ xs
trim_newline-append [] = refl
trim_newline-append (x ∷ []) = refl
trim_newline-append (x ∷ y ∷ xs) = ap (λ l. x ∷ l) (trim_newline-append (y ∷ xs))
