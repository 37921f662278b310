-- ===== src/Ccb/Statusline/Shown.antt =====
-- Which accounts the line of all accounts shows, and in which order (statuslineOrder).
use mathlib.Core.List.{Memᴰ, Permᴰ}
use mathlib.Core.List.Permᴰ
use ccbroker.Base.{
  ℕ, String, ◌==◌, ◌≡◌, refl, sym, Bool, true, false, not, ◌&&◌, Option, none, some, List, [], ◌∷◌,
  map, arith, if◌then◌else◌, Bool-cases, inl, inr,
}
use ccbroker.Ccb.State.{UsageRow}
use ccbroker.Ccb.Statusline.{usable, statusline_less, take_active, in_front, statusline_order}
use ccbroker.Ccb.Statusline.Order.{statusline_less_order}
use ccbroker.Ccb.Statusline.Lines.{Output, part_text, parts, row_named}

-- An order that sort.Slice asks for.
abbrev pub StrictWeak : (UsageRow → UsageRow → Bool) → Type 0
StrictWeak less =
    (a b c : UsageRow)
    → (less a b ≡ true → less b a ≡ false)
      × (less b a ≡ false → less c b ≡ false → less c a ≡ false)

-- No row comes before one that stands earlier.
abbrev pub Ordered : (UsageRow → UsageRow → Bool) → List UsageRow → Type 0
Ordered less [] = Unit
Ordered less (r ∷ rs) = ((x : UsageRow) → Memᴰ x rs → less x r ≡ false) × Ordered less rs

-- What sort.Slice documents: the same rows, in order where the order is one.
pub record Sorts (sort : (UsageRow → UsageRow → Bool) → List UsageRow → List UsageRow)
    : Type 0 where
  pub perm :
      (less : UsageRow → UsageRow → Bool) (rows : List UsageRow) → Permᴰ (sort less rows) rows
  pub ordered :
      (less : UsageRow → UsageRow → Bool)
      → StrictWeak less
      → (rows : List UsageRow) → Ordered less (sort less rows)

-- In the order of the quota that is left, and those that can be switched to before the others.
abbrev pub Ranked : List UsageRow → Type 0
Ranked [] = Unit
Ranked (r ∷ rs) =
    ((x : UsageRow)
      → Memᴰ x rs
      → (statusline_less x r ≡ false) × (usable x ≡ true → usable r ≡ true))
    × Ranked rs

-- The row of the active account, if there is one.
abbrev pub leader : String → List UsageRow → Option UsageRow
leader active rows = if active == "" then none else row_named active rows

abbrev pub Led : Option UsageRow → List UsageRow → Type 0
Led none shown = Ranked shown
Led (some r) shown = (rest : List UsageRow) × (shown ≡ r ∷ rest) × Ranked rest

-- Every row is shown once, the active account first.
pub record Displays (rows : List UsageRow) (active : String) (shown : List UsageRow) : Type 0 where
  pub every : Permᴰ shown rows
  pub led : Led (leader active rows) shown

ranked_pair :
    (x r : UsageRow)
    → statusline_less x r ≡ false
    → (statusline_less x r ≡ false) × (usable x ≡ true → usable r ≡ true)
ranked_pair x r h = (
  h,
  λ u. elim (Bool-cases (usable r)) [
    | inl switchable ↦ switchable
    | inr stuck ↦ ground (arith, (statusline_less_order x r r).2 u stuck)
  ],
)

Ordered-Ranked : (rows : List UsageRow) → Ordered statusline_less rows → Ranked rows
Ordered-Ranked [] o = tt
Ordered-Ranked (r ∷ rs) (o, os) = (λ x m. ranked_pair x r (o x m), Ordered-Ranked rs os)

take_active-leader :
    (active : String) (rows : List UsageRow) → (take_active active rows).0 ≡ leader active rows
unfolding take_active
take_active-leader active [] = ground arith
take_active-leader active (r ∷ rs) = ground (arith, take_active-leader active rs)

in_front-Perm :
    (head : Option UsageRow) (r : UsageRow) (rest rs : List UsageRow)
    → Permᴰ (in_front head rest) rs
    → Permᴰ (in_front head (r ∷ rest)) (r ∷ rs)
in_front-Perm none r rest rs p = Permᴰ.cons refl p
in_front-Perm (some x) r rest rs p = Permᴰ.trans (Permᴰ.swap refl refl) (Permᴰ.cons refl p)

take_active-Perm :
    (active : String) (rows : List UsageRow)
    → Permᴰ (in_front (take_active active rows).0 (take_active active rows).1) rows
unfolding take_active
take_active-Perm active [] = Permᴰ.nil
take_active-Perm active (r ∷ rs) = elim (Bool-cases (not (active == "") && r.name == active)) [
  | inl own ↦ rw own (Permᴰ.refl (r ∷ rs))
  | inr other ↦ rw other (in_front-Perm _ r _ rs (take_active-Perm active rs))
]

in_front-sorted :
    (head : Option UsageRow) (rest sorted : List UsageRow)
    → Permᴰ sorted rest
    → Permᴰ (in_front head sorted) (in_front head rest)
in_front-sorted none rest sorted p = p
in_front-sorted (some x) rest sorted p = Permᴰ.cons refl p

in_front-Led :
    (head : Option UsageRow) (rest : List UsageRow) → Ranked rest → Led head (in_front head rest)
in_front-Led none rest h = h
in_front-Led (some r) rest h = (rest, refl, h)

statusline_less-StrictWeak : StrictWeak statusline_less
statusline_less-StrictWeak a b c =
    ((statusline_less_order a b c).0, (statusline_less_order a b c).1)

statusline_order-Displays :
    (sort : (UsageRow → UsageRow → Bool) → List UsageRow → List UsageRow)
    → Sorts sort
    → (rows : List UsageRow) (active : String)
    → Displays rows active (statusline_order sort rows active)
unfolding statusline_order
statusline_order-Displays sort sorts rows active =
    let got : Option UsageRow × List UsageRow = take_active active rows in
    let sorted : List UsageRow = sort statusline_less got.1 in
    let ranked : Ranked sorted =
      Ordered-Ranked sorted (sorts.ordered statusline_less statusline_less-StrictWeak got.1) in
    record {
      every =
          Permᴰ.trans (in_front-sorted got.0 got.1 sorted (sorts.perm statusline_less got.1))
            (take_active-Perm active rows);
      led = rw (sym (take_active-leader active rows)) (in_front-Led got.0 sorted ranked);
    }

-- The line of all accounts has one part for every cached row, each row once: the active account's
-- first, if it is known, and behind it the others, those that can be switched to before those that
-- cannot, and none behind one that statuslineLess puts after it. sort.Slice sorts by every strict
-- weak order.
pub parts-Displays :
    (out : Output)
    → Sorts out.sort_rows
    → (rows : List UsageRow) (active : String) (t : ℕ)
    → (shown : List UsageRow) × (parts out active rows t ≡ map (part_text out active t) shown)
      × Displays rows active shown
unfolding parts
parts-Displays out sorts rows active t = (
  statusline_order out.sort_rows rows active,
  refl,
  statusline_order-Displays _ sorts rows active,
)
