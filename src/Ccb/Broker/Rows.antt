-- ===== src/Ccb/Broker/Rows.antt =====
-- The rows of GET /v1/usage as the client reads them (usageRow of cmd/ccb/main.go, with the Usage and
-- Bucket of internal/anthropic).
use ccbroker.Base.{Option, none, some, List, [], ◌∷◌, pos, Dict, lookup}
use ccbroker.Base.Options.{◌>>=◌}
use ccbroker.Json.{
  Value, Decimal, Items, item, no_items, null, number, object, array, read_text, read_bool,
  read_int, read_struct, to_dict,
}
use ccbroker.Anthropic.{Bucket, Usage}
use ccbroker.Ccb.State.{UsageRow}

-- a float64 field
abbrev read_number : Option Value → Option Decimal
read_number none = some (record { mantissa = pos 0; scale = 0 })
read_number (some null) = some (record { mantissa = pos 0; scale = 0 })
read_number (some (number d)) = some d
read_number _ = none

abbrev read_bucket : Dict Value → Option Bucket
read_bucket d = do
  u ← read_number (lookup "utilization" d)
  t ← read_int (lookup "resetsAt" d)
  some (record { utilization = u; resets_at = t })

-- a *Bucket
abbrev bucket_at : Option Value → Option (Option Bucket)
bucket_at none = some none
bucket_at (some null) = some none
bucket_at (some v) = do d ← read_struct (some v); b ← read_bucket d; some (some b)

-- a map[string]Bucket
read_buckets : Dict Value → Option (Dict Bucket)
read_buckets [] = some []
read_buckets ((k, v) ∷ d) = do
  fields ← read_struct (some v)
  b ← read_bucket fields
  rest ← read_buckets d
  some ((k, b) ∷ rest)

-- a *anthropic.Usage
usage_at : Option Value → Option (Option Usage)
unfolding read_buckets
usage_at none = some none
usage_at (some null) = some none
usage_at (some v) = do
  d ← read_struct (some v)
  five ← bucket_at (lookup "fiveHour" d)
  seven ← bucket_at (lookup "sevenDay" d)
  weekly ← read_struct (lookup "scopedWeekly" d)
  buckets ← read_buckets weekly
  some (some (record { five_hour = five; seven_day = seven; scoped_weekly = buckets }))

-- a map[string]any, `none` where it is nil
abbrev map_at : Option Value → Option (Option (Dict Value))
map_at none = some none
map_at (some null) = some none
map_at (some (object fs)) = some (some (to_dict fs))
map_at _ = none

unfoldable pub decode_row : Dict Value → Option UsageRow
unfolding usage_at
decode_row d = do
  name ← read_text (lookup "name" d)
  account ← read_text (lookup "account" d)
  dead ← read_bool (lookup "dead" d)
  health ← read_text (lookup "health" d)
  expires ← read_int (lookup "expiresAt" d)
  usage ← usage_at (lookup "usage" d)
  identity ← map_at (lookup "oauthAccount" d)
  at ← read_int (lookup "usageFetchedAt" d)
  error ← read_text (lookup "usageError" d)
  some (record {
    name = name;
    account = account;
    dead = dead;
    health = health;
    expires_at = expires;
    usage = usage;
    oauth_account = identity;
    usage_fetched_at = at;
    usage_error = error;
  })

read_rows : Items → Option (List UsageRow)
unfolding decode_row
read_rows no_items = some []
read_rows (item v vs) = do
  d ← read_struct (some v)
  row ← decode_row d
  rows ← read_rows vs
  some (row ∷ rows)

rows_at : Option Value → Option (List UsageRow)
unfolding read_rows
rows_at none = some []
rows_at (some null) = some []
rows_at (some (array vs)) = read_rows vs
rows_at _ = none

unfoldable pub decode_rows : Option Value → Option (List UsageRow)
unfolding rows_at
decode_rows none = none
decode_rows (some v) = do d ← read_struct (some v); rows_at (lookup "credentials" d)
