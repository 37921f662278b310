-- ===== src/Ccb/Rotate/Best.antt =====
-- The account that an automatic switch picks.
use ccbroker.Base.{
  ℕ, String, eq_iff, ◌≡◌, ◌≢◌, refl, sym, ap, ◌∙◌, ◌⊎◌, inl, inr, true, false, ◌&&◌, List, [], ◌∷◌,
  arith, Bool-cases,
}
use mathlib.Core.List.{Memᴰ}
use ccbroker.Json.{Decimal}
use ccbroker.Anthropic.Order.{less_at_most, at_most_less, at_most_trans, less_irrefl, less_trans}
use ccbroker.Ccb.State.{UsageRow}
use ccbroker.Ccb.Rotate.Order.{same_value, text_less_irrefl, text_at_most, text_less_asym}
use ccbroker.Ccb.Rotate.{eligible, score, beats, better, best_of}

beats_irrefl : (a : String × Decimal) → beats a a ≡ false
unfolding beats same_value
beats_irrefl a = ground (arith, less_irrefl a.1, text_less_irrefl a.0)

-- What `b` does not beat, and what `c` does not beat in `b`, `c` does not beat.
beats_at_most :
    (a b c : String × Decimal) → beats b a ≡ false → beats c b ≡ false → beats c a ≡ false
unfolding beats same_value
beats_at_most a b c h k = ground (
  arith,
  at_most_trans a.1 b.1 c.1,
  less_at_most a.1 b.1 c.1,
  at_most_less a.1 b.1 c.1,
  text_at_most a.0 b.0 c.0,
)

-- What beats another is not beaten by it.
beats_asym : (a b : String × Decimal) → beats a b ≡ true → beats b a ≡ false
unfolding beats same_value
beats_asym a b h = ground (arith, less_trans a.1 b.1 a.1, less_irrefl a.1, text_less_asym a.0 b.0)

-- Every row has a name.
abbrev pub Named : List UsageRow → Type 0
Named rows = (r : UsageRow) → Memᴰ r rows → r.name ≢ ""

module _ (t : ℕ) (policy : String) where
  abbrev candidate : UsageRow → String × Decimal
  candidate r = (r.name, score policy r)

  -- No eligible row of the list beats `best`.
  abbrev Unbeaten : List UsageRow → String × Decimal → Type 0
  Unbeaten rows best =
      (r : UsageRow) → Memᴰ r rows → eligible t r ≡ true → beats (candidate r) best ≡ false

  -- `name` is that of an eligible row which no eligible row beats: none has a lower score, and none
  -- with the same score a lesser name.
  pub record Winner (rows : List UsageRow) (name : String) : Type 0 where
    pub row : UsageRow
    pub member : Memᴰ row rows
    pub is_named : row.name ≡ name
    pub is_eligible : eligible t row ≡ true
    pub unbeaten : Unbeaten rows (candidate row)

  abbrev pub NoneEligible : List UsageRow → Type 0
  NoneEligible rows = (r : UsageRow) → Memᴰ r rows → eligible t r ≡ false

  -- What best_of makes of `best` and the rows: one of them, which neither is beaten by.
  record Led (best : String × Decimal) (rows : List UsageRow) (out : String × Decimal)
      : Type 0 where
    kept : beats best out ≡ false
    unbeaten : Unbeaten rows out
    origin :
        (out ≡ best)
        ⊎ ((row : UsageRow) × Memᴰ row rows × (eligible t row ≡ true) × (out ≡ candidate row))

  Unbeaten-cons :
      (r : UsageRow) (rs : List UsageRow) (out : String × Decimal)
      → (eligible t r ≡ true → beats (candidate r) out ≡ false)
      → Unbeaten rs out
      → Unbeaten (r ∷ rs) out
  Unbeaten-cons r rs out h u r' (Memᴰ.head e) el = rw e (h (ap (eligible t) (sym e) ∙ el))
  Unbeaten-cons r rs out h u r' (Memᴰ.tail m) el = u r' m el

  better_takes :
      (best : String × Decimal) (r : UsageRow)
      → eligible t r ≡ true
      → (best.0 ≡ "") ⊎ (beats (candidate r) best ≡ true)
      → better t policy best r ≡ candidate r
  unfolding better
  better_takes best r el (inl e) = ground (arith, eq_iff best.0 "")
  better_takes best r el (inr b) = ground (arith, eq_iff best.0 "")

  better_leaves :
      (best : String × Decimal) (r : UsageRow)
      → (eligible t r ≡ false) ⊎ ((best.0 ≢ "") × (beats (candidate r) best ≡ false))
      → better t policy best r ≡ best
  unfolding better
  better_leaves best r (inl el) = ground arith
  better_leaves best r (inr (n, b)) = ground (arith, eq_iff best.0 "")

  left_alone :
      (best : String × Decimal) (r : UsageRow)
      → best.0 ≢ ""
      → (eligible t r && beats (candidate r) best) ≡ false
      → (eligible t r ≡ false) ⊎ ((best.0 ≢ "") × (beats (candidate r) best ≡ false))
  left_alone best r n p = elim (Bool-cases (eligible t r)) [
    | inl el ↦ inr (n, ground arith)
    | inr el ↦ inl el
  ]

  best_of-Led :
      (best : String × Decimal) (rows : List UsageRow)
      → best.0 ≢ ""
      → Named rows
      → Led best rows (best_of t policy best rows)
  unfolding best_of
  best_of-Led best [] n named = record {
    kept = beats_irrefl best;
    unbeaten = λ r m el. elim m [ ];
    origin = inl refl;
  }
  best_of-Led best (r ∷ rs) n named = elim (Bool-cases (eligible t r && beats (candidate r) best)) [
    | inl p ↦
        let after =
          best_of-Led (candidate r) rs (named r (Memᴰ.head refl))
            (λ r' m. named r' (Memᴰ.tail m)) in
        let el : eligible t r ≡ true = ground arith in
        rw (better_takes best r el (inr (ground arith))) (record {
          kept =
              beats_at_most _ (candidate r) best after.kept
                (beats_asym (candidate r) best (ground arith));
          unbeaten = Unbeaten-cons r rs _ (λ e. after.kept) after.unbeaten;
          origin = elim after.origin [
            | inl e ↦ inr (r, Memᴰ.head refl, el, e)
            | inr (row, m, e, same) ↦ inr (row, Memᴰ.tail m, e, same)
          ];
        })
    | inr q ↦
        let after = best_of-Led best rs n (λ r' m. named r' (Memᴰ.tail m)) in
        rw (better_leaves best r (left_alone best r n q)) (record {
          kept = after.kept;
          unbeaten =
              Unbeaten-cons r rs _
                (λ el. beats_at_most _ best (candidate r) after.kept (ground arith)) after.unbeaten;
          origin = elim after.origin [
            | inl e ↦ inl e
            | inr (row, m, e, same) ↦ inr (row, Memᴰ.tail m, e, same)
          ];
        })
  ]

  Led-Winner :
      (r : UsageRow) (rs : List UsageRow) (out : String × Decimal)
      → eligible t r ≡ true
      → Led (candidate r) rs out
      → Winner (r ∷ rs) out.0
  Led-Winner r rs out el led =
      let all : Unbeaten (r ∷ rs) out = Unbeaten-cons r rs out (λ e. led.kept) led.unbeaten in
      elim led.origin [
        | inl e ↦ record {
          row = r;
          member = Memᴰ.head refl;
          is_named = ap (λ x. x.0) (sym e);
          is_eligible = el;
          unbeaten = λ r' m h. ap (beats (candidate r')) (sym e) ∙ all r' m h;
        }
        | inr (row, m, h, e) ↦ record {
          row = row;
          member = Memᴰ.tail m;
          is_named = ap (λ x. x.0) (sym e);
          is_eligible = h;
          unbeaten = λ r' k g. ap (beats (candidate r')) (sym e) ∙ all r' k g;
        }
      ]

  -- No row is eligible and the name is empty, or it is the winner's.
  abbrev pub Found : List UsageRow → String → Type 0
  Found rows name = ((name ≡ "") × NoneEligible rows) ⊎ ((name ≢ "") × Winner rows name)

  Found-later :
      (r : UsageRow) (rs : List UsageRow) (name : String)
      → eligible t r ≡ false
      → Found rs name
      → Found (r ∷ rs) name
  Found-later r rs name q (inl (e, empty)) =
      inl (e, λ r' m. elim m [ Memᴰ.head k ↦ ap (eligible t) k ∙ q | Memᴰ.tail k ↦ empty r' k ])
  Found-later r rs name q (inr (n, win)) = inr (
    n,
    record {
      row = win.row;
      member = Memᴰ.tail win.member;
      is_named = win.is_named;
      is_eligible = win.is_eligible;
      unbeaten = Unbeaten-cons r rs _ (λ el. absurd (ground arith)) win.unbeaten;
    },
  )

  Found-Winner :
      (rows : List UsageRow) (name : String) → Named rows → Winner rows name → Found rows name
  Found-Winner rows name named win = inr (λ e. named win.row win.member (win.is_named ∙ e), win)

  -- What autoSelect's loop ends with.
  pub best_of-Found :
      (start : String × Decimal) (rows : List UsageRow)
      → start.0 ≡ ""
      → Named rows
      → Found rows (best_of t policy start rows).0
  unfolding best_of
  best_of-Found start [] e named = inl (e, λ r m. elim m [ ])
  best_of-Found start (r ∷ rs) e named =
      let named' : Named rs = λ r' m. named r' (Memᴰ.tail m) in
      elim (Bool-cases (eligible t r)) [
        | inl el ↦
            rw (best_of, better_takes start r el (inl e))
              (Found-Winner (r ∷ rs) _ named (
                Led-Winner r rs _ el
                  (best_of-Led (candidate r) rs (named r (Memᴰ.head refl)) named')))
        | inr q ↦
            rw (best_of, better_leaves start r (inl q))
              (Found-later r rs _ q (best_of-Found start rs e named'))
      ]
