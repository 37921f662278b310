-- ===== src/Ccb/Broker.antt =====
-- What the client asks the broker (cmd/ccb/main.go: getCredEnvelope, offerCred, fetchUsageRows,
-- longPoll). The error of an Option is `none`: its text goes to the log only.
mod Rows
pub use Rows.{decode_rows}
use ccbroker.Base.{
  String, ◌==◌, eqb, Bool, true, false, ◌||◌, Option, none, some, List, ℤ, pos, lookup,
  if◌then◌else◌, pure, ◌>>=◌, ltb, ltb_ℤ, ◌^◌, ℕ, negsuc, ◌-◌, leb, Dict, read_digits, codes, ◌∷◌,
  [],
}
use ccbroker.Base.Options.{◌>>=◌ as ◌>>=?◌}
use ccbroker.Json.{Value, read_text, read_bool, read_int, read_struct}
use ccbroker.Ccb.State.{
  World, Act, Answer, Response, UsageRow, http, offer, get_credential, get_usage, poll,
}

-- credEnvelope
pub record Envelope : Type 0 where
  pub oauth : Dict Value
  pub gen : ℤ
  pub account : String
  pub probe_live : Bool

-- offerResult
pub record OfferResult : Type 0 where
  pub adopted : Bool
  pub name : String
  pub reason : String
  pub account : String
  pub gen : ℤ

abbrev read_object : Option Value → Option (Dict Value)
read_object none = none
read_object (some v) = read_struct (some v)

-- json.Unmarshal into a credEnvelope
unfoldable pub decode_envelope : Option Value → Option Envelope
decode_envelope body = read_object body >>=? λ d.
    read_struct (lookup "claudeAiOauth" d) >>=? λ oauth. read_int (lookup "gen" d) >>=? λ gen.
    read_text (lookup "account" d) >>=? λ account. read_bool (lookup "probeLive" d) >>=? λ live.
    some (record { oauth = oauth; gen = gen; account = account; probe_live = live })

-- json.Unmarshal into an offerResult
unfoldable pub decode_offer_result : Option Value → Option OfferResult
decode_offer_result body = read_object body >>=? λ d. read_bool (lookup "adopted" d) >>=? λ adopted.
    read_text (lookup "name" d) >>=? λ name. read_text (lookup "reason" d) >>=? λ reason.
    read_text (lookup "account" d) >>=? λ account. read_int (lookup "gen" d) >>=? λ gen.
    some (record { adopted = adopted; name = name; reason = reason; account = account; gen = gen })

-- The body of a 200.
unfoldable pub envelope_of : Answer → Option Envelope
envelope_of none = none
envelope_of (some r) = if eqb r.status 200 then decode_envelope r.json else none

abbrev pub not_offered : String → OfferResult
not_offered reason = record {
  adopted = false;
  name = "";
  reason = reason;
  account = "";
  gen = pos 0;
}

abbrev pub or_offer_error : Option OfferResult → OfferResult
or_offer_error none = not_offered "offer_error"
or_offer_error (some r) = r

-- What offerCred makes of the answer.
unfoldable pub offer_result : Answer → OfferResult
offer_result none = not_offered "offer_error"
offer_result (some r) =
    if eqb r.status 200
    then or_offer_error (decode_offer_result r.json)
    else if eqb r.status 404
    then not_offered "old_broker"
    else if eqb r.status 429
    then not_offered "rate_limited"
    else if eqb r.status 400
    then not_offered "bad_offer"
    else not_offered "offer_error"

unfoldable pub rows_of : Answer → Option (List UsageRow)
rows_of none = none
rows_of (some r) = if eqb r.status 200 then decode_rows r.json else none

-- strconv.ParseInt(h, 10, 64), `none` where it gives an error
abbrev in_range : Option ℕ → Option ℤ
in_range none = none
in_range (some n) = if ltb n (2 ^ 63) then some (pos n) else none

abbrev negated : Option ℕ → Option ℤ
negated none = none
negated (some n) =
    if eqb n 0 then some (pos 0) else if leb n (2 ^ 63) then some (negsuc (n - 1)) else none

abbrev signed : List ℕ → Option ℤ
signed [] = none
signed (c ∷ cs) =
    if eqb c b'-'
    then negated (read_digits cs)
    else if eqb c b'+'
    then in_range (read_digits cs)
    else in_range (read_digits (c ∷ cs))

unfoldable pub parse_gen : String → Option ℤ
parse_gen h = signed (codes h)

abbrev pub gen_or : ℤ → Option ℤ → ℤ
gen_or since none = since
gen_or since (some g) = g

-- 304, 409 and 503
abbrev pub keeps_local : ℕ → Bool
keeps_local status = eqb status 304 || eqb status 409 || eqb status 503

-- What longPoll makes of the answer: the generation and whether there is a change.
unfoldable pub poll_result : ℤ → Answer → Option (ℤ × Bool)
poll_result since none = none
poll_result since (some r) =
    let gen = gen_or since (parse_gen r.gen_header) in
    if eqb r.status 200
    then some (gen, true)
    else if keeps_local r.status
    then some (gen, false)
    else none

module _ (w : World) where
  -- getCredEnvelope
  unfoldable pub get_cred_envelope : String → Bool → Act (Option Envelope)
  get_cred_envelope name probe = do a ← http w (get_credential name probe); pure (envelope_of a)

  -- offerCred
  unfoldable pub offer_cred : Dict Value → Act OfferResult
  offer_cred oauth = do a ← http w (offer oauth); pure (offer_result a)

  abbrev sorted : Option (List UsageRow) → Option (List UsageRow)
  sorted none = none
  sorted (some rows) = some (w.sort_rows rows)

  -- fetchUsageRows
  unfoldable pub fetch_usage_rows : Act (Option (List UsageRow))
  fetch_usage_rows = do a ← http w get_usage; pure (sorted (rows_of a))

  -- longPoll
  unfoldable pub long_poll : String → ℤ → ℤ → Act (Option (ℤ × Bool))
  long_poll name since_gen wait_sec = do
    a ← http w (poll name since_gen wait_sec)
    pure (poll_result since_gen a)
