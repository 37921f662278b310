-- ===== src/Anthropic/Quota.antt =====
-- internal/anthropic/usage.go: the quota snapshot of one account. A utilization is the exact decimal
-- that the source rounds to float64. strconv.ParseFloat and time.Parse are parameters.
use ccbroker.Base.{
  ◌+◌, ◌^◌, String, ◌==◌, Bool, Option, none, some, [], ◌∷◌, ℤ, pos, ◌*ℤ◌, ltb_ℤ, Dict, lookup,
  insert, if◌then◌else◌,
}
use ccbroker.Base.Options.{◌>>=◌}
use ccbroker.Json.{
  Decimal, Value, null, number, text, array, Items, no_items, item, to_int, read_text, read_struct,
}

pub record Bucket : Type 0 where
  pub utilization : Decimal
  pub resets_at : ℤ

pub record Usage : Type 0 where
  pub five_hour : Option Bucket
  pub seven_day : Option Bucket
  pub scoped_weekly : Dict Bucket

pub record ResetTime : Type 0 where
  pub parse_float : String → Option Decimal
  pub parse_rfc3339 : String → Option ℤ

-- a < b
unfoldable pub less : Decimal → Decimal → Bool
less a b = ltb_ℤ (a.mantissa *ℤ pos (10 ^ b.scale)) (b.mantissa *ℤ pos (10 ^ a.scale))

abbrev pub nothing : Decimal
nothing = record { mantissa = pos 0; scale = 0 }

-- if b != nil && b.Utilization > max { max = b.Utilization }
unfoldable pub raise_to : Decimal → Option Bucket → Decimal
raise_to m none = m
raise_to m (some b) = if less m b.utilization then b.utilization else m

unfoldable pub max_utilization : Usage → Decimal
max_utilization u = raise_to (raise_to nothing u.five_hour) u.seven_day

unfoldable pub raise_all : Decimal → Dict Bucket → Decimal
raise_all m [] = m
raise_all m ((model, b) ∷ bs) = raise_all (raise_to m (some b)) bs

unfoldable pub max_utilization_all : Usage → Decimal
max_utilization_all u = raise_all (max_utilization u) u.scoped_weekly

unfoldable pub sec_or_ms_to_ms : Decimal → ℤ
sec_or_ms_to_ms n =
    if less n (record { mantissa = pos (10 ^ 12); scale = 0 })
    then to_int (record n { mantissa = n.mantissa *ℤ pos 1000 })
    else to_int n

or_time : Option ℤ → ℤ
or_time none = pos 0
or_time (some t) = t

or_parsed : Option Decimal → ℤ → ℤ
or_parsed none t = t
or_parsed (some n) t = sec_or_ms_to_ms n

unfoldable pub parse_reset_at : ResetTime → Option Value → ℤ
unfolding or_time or_parsed
parse_reset_at z (some (number n)) = sec_or_ms_to_ms n
parse_reset_at z (some (text s)) =
    if s == "" then pos 0 else or_parsed (z.parse_float s) (or_time (z.parse_rfc3339 s))
parse_reset_at z _ = pos 0

-- A *float64 field: nil where it is absent or null.
read_float : Option Value → Option (Option Decimal)
read_float none = some none
read_float (some null) = some none
read_float (some (number d)) = some (some d)
read_float _ = none

percent : Decimal → Decimal
percent d = record d { scale = d.scale + 2 }

-- used_percentage, or utilization where that is nil
normalized : ResetTime → Option Value → Option Decimal → Option Decimal → Option Bucket
normalized z reset (some used) u =
    some (record { utilization = percent used; resets_at = parse_reset_at z reset })
normalized z reset none (some u) =
    some (record { utilization = percent u; resets_at = parse_reset_at z reset })
normalized z reset none none = none

bucket_of : ResetTime → Dict Value → Option (Option Bucket)
bucket_of z d = do
  used ← read_float (lookup "used_percentage" d)
  u ← read_float (lookup "utilization" d)
  some (normalized z (lookup "resets_at" d) used u)

-- a *rawBucket, and normalizeBucket of it
normalize_bucket : ResetTime → Option Value → Option (Option Bucket)
normalize_bucket z none = some none
normalize_bucket z (some null) = some none
normalize_bucket z (some v) = do d ← read_struct (some v); bucket_of z d

add_limit : ResetTime → String → String → Option Decimal → Option Value → Dict Bucket → Dict Bucket
add_limit z group model none reset weekly = weekly
add_limit z group model (some p) reset weekly =
    if group == "weekly"
    then (if model == ""
        then weekly
        else insert model (record { utilization = percent p; resets_at = parse_reset_at z reset })
            weekly)
    else weekly

read_limits : ResetTime → Dict Bucket → Items → Option (Dict Bucket)
read_limits z weekly no_items = some weekly
read_limits z weekly (item v rest) = do
  d ← read_struct (some v)
  group ← read_text (lookup "group" d)
  p ← read_float (lookup "percent" d)
  scope ← read_struct (lookup "scope" d)
  model ← read_struct (lookup "model" scope)
  name ← read_text (lookup "display_name" model)
  read_limits z (add_limit z group name p (lookup "resets_at" d) weekly) rest

limits_of : ResetTime → Option Value → Option (Dict Bucket)
limits_of z none = some []
limits_of z (some null) = some []
limits_of z (some (array vs)) = read_limits z [] vs
limits_of z _ = none

unfoldable pub decode_usage : ResetTime → Option Value → Option Usage
unfolding read_float percent normalized bucket_of normalize_bucket add_limit read_limits limits_of
decode_usage z none = none
decode_usage z (some v) = do
  d ← read_struct (some v)
  five ← normalize_bucket z (lookup "five_hour" d)
  seven ← normalize_bucket z (lookup "seven_day" d)
  weekly ← limits_of z (lookup "limits" d)
  some (record { five_hour = five; seven_day = seven; scoped_weekly = weekly })
