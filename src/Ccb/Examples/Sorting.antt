-- ===== src/Ccb/Examples/Sorting.antt =====
-- The line of all accounts, with insertion sort in the place of sort.Slice.
use mathlib.Core.List.{Memᴰ, Permᴰ}
use mathlib.Core.List.Permᴰ
use mathlib.Core.Path.{subst}
use ccbroker.Base.{
  ◌≡◌, refl, sym, Bool, true, false, List, [], ◌∷◌, map, if◌then◌else◌, Bool-cases, inl, inr,
}
use ccbroker.Ccb.State.{UsageRow}
use ccbroker.Ccb.Statusline.Lines.{Output, part_text, parts}
use ccbroker.Ccb.Statusline.Shown.{Displays, Ordered, Sorts, StrictWeak, parts-Displays}
use ccbroker.Ccb.Examples.Rows.{rows}

abbrev insert_row : (UsageRow → UsageRow → Bool) → UsageRow → List UsageRow → List UsageRow
insert_row less r [] = r ∷ []
insert_row less r (x ∷ xs) =
    let rest = insert_row less r xs in if less x r then x ∷ rest else r ∷ x ∷ xs

abbrev sort_by : (UsageRow → UsageRow → Bool) → List UsageRow → List UsageRow
sort_by less [] = []
sort_by less (r ∷ rs) = insert_row less r (sort_by less rs)

insert_row-Perm :
    (less : UsageRow → UsageRow → Bool) (r : UsageRow) (xs : List UsageRow)
    → Permᴰ (insert_row less r xs) (r ∷ xs)
insert_row-Perm less r [] = Permᴰ.refl (r ∷ [])
insert_row-Perm less r (x ∷ xs) = elim (Bool-cases (less x r)) [
  | inl before ↦
      rw before (Permᴰ.trans (Permᴰ.cons refl (insert_row-Perm less r xs)) (Permᴰ.swap refl refl))
  | inr behind ↦ rw behind (Permᴰ.refl (r ∷ x ∷ xs))
]

sort_by-Perm : (less : UsageRow → UsageRow → Bool) (xs : List UsageRow) → Permᴰ (sort_by less xs) xs
sort_by-Perm less [] = Permᴰ.nil
sort_by-Perm less (x ∷ xs) =
    Permᴰ.trans (insert_row-Perm less x (sort_by less xs)) (Permᴰ.cons refl (sort_by-Perm less xs))

past_head : (y r x : UsageRow) (xs : List UsageRow) → Memᴰ y (r ∷ xs) → Memᴰ y (r ∷ x ∷ xs)
past_head y r x xs (Memᴰ.head e) = Memᴰ.head e
past_head y r x xs (Memᴰ.tail m) = Memᴰ.tail (Memᴰ.tail m)

in_inserted :
    (y r x : UsageRow) (rest xs : List UsageRow)
    → (Memᴰ y rest → Memᴰ y (r ∷ xs))
    → Memᴰ y (x ∷ rest)
    → Memᴰ y (r ∷ x ∷ xs)
in_inserted y r x rest xs f (Memᴰ.head e) = Memᴰ.tail (Memᴰ.head e)
in_inserted y r x rest xs f (Memᴰ.tail m) = past_head y r x xs (f m)

insert_row-mem :
    (less : UsageRow → UsageRow → Bool) (y r : UsageRow) (xs : List UsageRow)
    → Memᴰ y (insert_row less r xs)
    → Memᴰ y (r ∷ xs)
insert_row-mem less y r [] = λ m. m
insert_row-mem less y r (x ∷ xs) = elim (Bool-cases (less x r)) [
  | inl before ↦
      rw before (in_inserted y r x (insert_row less r xs) xs (insert_row-mem less y r xs))
  | inr behind ↦ rw behind (λ m. m)
]

module _ (less : UsageRow → UsageRow → Bool) (weak : StrictWeak less) where
  behind_head :
      (x r y : UsageRow) (xs : List UsageRow)
      → less x r ≡ true
      → ((z : UsageRow) → Memᴰ z xs → less z x ≡ false)
      → Memᴰ y (r ∷ xs)
      → less y x ≡ false
  behind_head x r y xs before h (Memᴰ.head e) =
      subst (λ z. less z x ≡ false) (sym e) ((weak x r r).0 before)
  behind_head x r y xs before h (Memᴰ.tail m) = h y m

  behind_both :
      (x r y : UsageRow) (xs : List UsageRow)
      → less x r ≡ false
      → ((z : UsageRow) → Memᴰ z xs → less z x ≡ false)
      → Memᴰ y (x ∷ xs)
      → less y r ≡ false
  behind_both x r y xs behind h (Memᴰ.head e) = subst (λ z. less z r ≡ false) (sym e) behind
  behind_both x r y xs behind h (Memᴰ.tail m) = (weak r x y).1 behind (h y m)

  insert_row-Ordered :
      (r : UsageRow) (xs : List UsageRow) → Ordered less xs → Ordered less (insert_row less r xs)
  insert_row-Ordered r [] o = (λ x m. elim m [ ], tt)
  insert_row-Ordered r (x ∷ xs) (h, o) = elim (Bool-cases (less x r)) [
    | inl before ↦ rw before (
      λ y m. behind_head x r y xs before h (insert_row-mem less y r xs m),
      insert_row-Ordered r xs o,
    )
    | inr behind ↦ rw behind (λ y m. behind_both x r y xs behind h m, (h, o))
  ]

  sort_by-Ordered : (xs : List UsageRow) → Ordered less (sort_by less xs)
  sort_by-Ordered [] = tt
  sort_by-Ordered (x ∷ xs) = insert_row-Ordered x (sort_by less xs) (sort_by-Ordered xs)

sort_by-Sorts : Sorts sort_by
sort_by-Sorts = record { perm = sort_by-Perm; ordered = sort_by-Ordered }

abbrev output : Output
output = record {
  number = λ n. "0";
  percent = λ d. "0%";
  percent3 = λ d. "  0%";
  to_upper = λ c. c;
  to_lower = λ s. s;
  sort_rows = sort_by;
  sort_texts = λ ts. ts;
  sort_models = λ d. d;
}

parts-Displays_example :
    (shown : List UsageRow) × (parts output "work" rows 1 ≡ map (part_text output "work" 1) shown)
    × Displays rows "work" shown
parts-Displays_example = parts-Displays output sort_by-Sorts rows "work" 1
