-- ===== src/Ccb/Statusline.antt =====
-- The status line (cmd/ccb/main.go: statuslineOrder, statuslineLess, statuslineSortKey, fmtRemain,
-- statuslineSegment, statuslineSegments, bar). Scores are exact decimals. sort.Slice is a parameter.
-- The strings that are printed are in Lines and Printed.
pub mod Order
pub mod Countdown
pub mod Lines
pub mod Printed
pub mod Shown
use ccbroker.Base.{
  ℕ, suc, ◌+◌, ◌-◌, ◌*◌, ◌/◌, ◌%◌, String, ◌==◌, Bool, true, false, not, ◌&&◌, ◌||◌, Option, none,
  some, List, [], ◌∷◌, ◌++◌, ℤ, pos, negsuc, ◌+ℤ◌, ◌-ℤ◌, ◌*ℤ◌, quot, pos_part, ltb, leb, ltb_ℤ,
  Dict, if◌then◌else◌, ◌^◌, map,
}
use ccbroker.Json.{Decimal, to_int}
use ccbroker.Anthropic.{Bucket, Usage, less, nothing, raise_all}
use ccbroker.Ccb.State.{UsageRow}
use ccbroker.Ccb.Rotate.Order.{text_less, same_value}

-- The account can be switched to.
abbrev pub usable : UsageRow → Bool
usable r = elim r.usage [ none ↦ false | some u ↦ not r.dead ]

abbrev utilization_of : Option Bucket → Decimal
utilization_of none = nothing
utilization_of (some b) = b.utilization

-- statuslineSortKey
unfoldable pub statusline_sort_key : Usage → Decimal × Decimal × Decimal
statusline_sort_key u =
    (raise_all nothing u.scoped_weekly, utilization_of u.seven_day, utilization_of u.five_hour)

-- One step of the comparison of two keys: the next is asked where both are equal.
unfoldable pub key_less : Decimal → Decimal → Bool → Bool
key_less a b next = if same_value a b then next else less a b

abbrev pub keys_less : Decimal × Decimal × Decimal → Decimal × Decimal × Decimal → Bool → Bool
keys_less a b next = key_less a.0 b.0 (key_less a.1 b.1 (key_less a.2 b.2 next))

abbrev key_of : Option Usage → Decimal × Decimal × Decimal
key_of none = (nothing, nothing, nothing)
key_of (some u) = statusline_sort_key u

-- statuslineLess
unfoldable pub statusline_less : UsageRow → UsageRow → Bool
statusline_less a b =
    if usable a && not (usable b)
    then true
    else if not (usable a) && usable b
    then false
    else if not (usable a)
    then text_less a.name b.name
    else keys_less (key_of a.usage) (key_of b.usage) (text_less a.name b.name)

-- The loop of statuslineOrder: the first row of the active account, and the others in order.
unfoldable pub take_active : String → List UsageRow → Option UsageRow × List UsageRow
take_active active [] = (none, [])
take_active active (r ∷ rs) =
    let (head, rest) = take_active active rs in
    if not (active == "") && r.name == active then (some r, rs) else (head, r ∷ rest)

abbrev pub in_front : Option UsageRow → List UsageRow → List UsageRow
in_front none rest = rest
in_front (some r) rest = r ∷ rest

-- statuslineOrder, with sort.Slice
unfoldable pub statusline_order :
    ((UsageRow → UsageRow → Bool) → List UsageRow → List UsageRow)
    → List UsageRow
    → String
    → List UsageRow
statusline_order sort rows active =
    let (head, rest) = take_active active rows in in_front head (sort statusline_less rest)

-- "XdYh", "XhYm" or "Xm"
pub data Remain : Type 0 where
  days hours : ℕ → ℕ → Remain
  minutes : ℕ → Remain

-- fmtRemain, of a number of seconds that is not negative
unfoldable pub fmt_remain : ℕ → Remain
fmt_remain sec =
    let d = sec / 86400 in
    let h = (sec % 86400) / 3600 in
    let m = (sec % 3600) / 60 in
    if ltb 0 d then days d h else if ltb 0 h then hours h m else minutes m

pub data Color : Type 0 where
  high mid low : Color

pub record Segment : Type 0 where
  pub label : String
  pub color : Color
  pub percent : ℤ
  pub remain : Option Remain

abbrev round_parts : ℤ → ℕ → ℤ
round_parts (pos n) unit = pos ((n * 200 + unit) / (2 * unit))
round_parts (negsuc n) unit = pos 0 -ℤ pos ((suc n * 200 + unit) / (2 * unit))

-- math.Round(x * 100), half away from zero
unfoldable pub round_percent : Decimal → ℤ
round_percent d = round_parts d.mantissa (10 ^ d.scale)

abbrev color_of : ℤ → Color
color_of p = if not (ltb_ℤ p (pos 80)) then high else if not (ltb_ℤ p (pos 50)) then mid else low

abbrev remain_of : ℤ → ℤ → Option Remain
remain_of resets_at now =
    if ltb_ℤ now resets_at
    then some (fmt_remain (pos_part (quot (resets_at -ℤ now) 1000)))
    else none

-- statuslineSegment
unfoldable pub statusline_segment : String → Bucket → ℤ → Segment
statusline_segment label b now = record {
  label = label;
  color = color_of (round_percent b.utilization);
  percent = round_percent b.utilization;
  remain = remain_of b.resets_at now;
}

abbrev window : String → Option Bucket → ℤ → List Segment
window label none now = []
window label (some b) now = statusline_segment label b now ∷ []

abbrev weekly : (String → String) → Dict Bucket → ℤ → List Segment
weekly model_label [] now = []
weekly model_label ((m, b) ∷ rest) now =
    statusline_segment (model_label m) b now ∷ weekly model_label rest now

-- statuslineSegments, with modelLabel, and the weekly buckets as sort.Strings orders their names
unfoldable pub statusline_segments :
    (String → String) → (Dict Bucket → Dict Bucket) → Option Usage → ℤ → List Segment
statusline_segments model_label sort none now = []
statusline_segments model_label sort (some u) now =
    window "5h:" u.five_hour now
    ++ window "7d:" u.seven_day now
    ++ weekly model_label (sort u.scoped_weekly) now

-- int(x * 10 + 0.5), between 0 and 10
unfoldable pub bar_length : Decimal → ℕ
bar_length d =
    let n = to_int (record {
      mantissa = d.mantissa *ℤ pos 100 +ℤ pos (5 * 10 ^ d.scale);
      scale = d.scale + 1;
    }) in
    if ltb 10 (pos_part n) then 10 else pos_part n
