-- ===== src/Ccb/Setup/Units/Cron.antt =====
-- How often cron runs the watchdog.
use ccbroker.Base.{
  ℕ, zero, suc, ◌+◌, ◌*◌, ◌/◌, ◌%◌, ◌<◌, ◌≤◌, ◌≡◌, refl, some, List, [], ◌∷◌, ◌++◌, ℤ, pos, negsuc,
  quot, ltb, ◌≤ℤ◌, read_digits, codes, digits_from, pos_part, neg_part, ◌-◌, ◌∙◌, ap, Bool-cases,
  inl, inr, arith,
}
use ccbroker.Ccb.Setup.Units.{digits_of, decimal, cron_minutes, cron_lines}

-- The minutes are a step of the minute field, which has 0 to 59, and at intervals of a minute or more
-- the runs are no further apart than the sync interval.
cron_minutes_range :
    (interval : ℤ) → (pos 1 ≤ℤ cron_minutes interval) × (cron_minutes interval ≤ℤ pos 59)
unfolding cron_minutes quot
cron_minutes_range (pos n) = ground arith
cron_minutes_range (negsuc n) = ground arith

cron_minutes-le :
    (interval : ℤ) → pos 60 ≤ℤ interval → pos_part (cron_minutes interval) * 60 ≤ pos_part interval
unfolding cron_minutes quot
cron_minutes-le (pos n) h = ground arith
cron_minutes-le (negsuc n) h = absurd (omega arith)

-- The digits with enough fuel are those of the number.
digits_from-append :
    (cs : List ℕ) (acc v d : ℕ)
    → digits_from acc cs ≡ some v
    → d < 10
    → digits_from acc (cs ++ (48 + d) ∷ []) ≡ some (v * 10 + d)
unfolding digits_from
digits_from-append [] acc v d h k = ground arith
digits_from-append (c ∷ cs) acc v d h k =
    ground (arith, digits_from-append cs (acc * 10 + (c - 48)) v d)

digits_from-digits_of : (f n : ℕ) → n < f → digits_from 0 (digits_of f n) ≡ some n
unfolding digits_from
digits_from-digits_of zero n h = absurd (omega arith)
digits_from-digits_of (suc f) n h = elim (Bool-cases (ltb n 10)) [
  | inl small ↦ rw small (ground arith)
  | inr big ↦ rw big (
      digits_from-append (digits_of f (n / 10)) 0 (n / 10) (n % 10)
        (digits_from-digits_of f (n / 10) (ground arith)) (omega arith)
      ∙ ap (λ x. some x) (omega arith))
]

read_digits-last : (cs : List ℕ) (d : ℕ) → read_digits (cs ++ d ∷ []) ≡ digits_from 0 (cs ++ d ∷ [])
unfolding read_digits
read_digits-last [] d = refl
read_digits-last (c ∷ cs) d = refl

read_digits_one : (d : ℕ) → d < 10 → read_digits ((48 + d) ∷ []) ≡ some d
unfolding read_digits digits_from
read_digits_one d h = ground arith

pub read_digits-decimal : (n : ℕ) → read_digits (decimal (pos n)) ≡ some n
unfolding decimal
read_digits-decimal n = elim (Bool-cases (ltb n 10)) [
  | inl small ↦ rw small (read_digits_one n (ground arith))
  | inr big ↦
      ap read_digits (rw big refl)
      ∙ read_digits-last (digits_of n (n / 10)) (48 + n % 10)
      ∙ ap (digits_from 0) (rw big refl)
      ∙ digits_from-digits_of (suc n) n (omega arith)
]

pos-of_range : (m : ℤ) → pos 1 ≤ℤ m → m ≡ pos (pos_part m)
pos-of_range (pos n) h = refl
pos-of_range (negsuc n) h = absurd (omega arith)

-- For a sync interval of a minute or more, the watchdog's crontab line starts with a step of minutes
-- that is written in decimal, is from 1 to 59 as cron takes it, and is no longer than the interval.
pub cron_lines-Within :
    (exe cfg_path : List ℕ) (interval : ℤ)
    → pos 60 ≤ℤ interval
    → (n : ℕ) × (step : List ℕ) × ((cron_lines exe cfg_path interval).1
        ≡ codes "*/" ++ (step ++ (codes " * * * * " ++ (exe ++ (codes " sync -c " ++ cfg_path)))))
      × (read_digits step ≡ some n)
      × (1 ≤ n)
      × (n ≤ 59)
      × (n * 60 ≤ pos_part interval)
unfolding cron_lines
cron_lines-Within exe cfg_path interval h =
    let m : ℤ = cron_minutes interval in
    let (low, high) = cron_minutes_range interval in
    let e : m ≡ pos (pos_part m) = pos-of_range m low in
    (
      pos_part m,
      decimal m,
      refl,
      ap (λ k. read_digits (decimal k)) e ∙ read_digits-decimal (pos_part m),
      omega arith,
      omega (arith, ap neg_part e),
      cron_minutes-le interval h,
    )
