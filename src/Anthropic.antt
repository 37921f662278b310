-- ===== src/Anthropic.antt =====
-- internal/anthropic: the three calls of the upstream OAuth API, from the answer of the HTTP client
-- to what the broker is told. The transport is not modelled: `Answer` is what http.Client.Do and
-- io.ReadAll give. The JSON reading of a body is part of the answer.
mod Quota
pub mod Order
pub mod Classify
mod Examples
pub use Quota.{Bucket, Usage, ResetTime, nothing}
unfoldable pub use Quota.{
  decode_usage, less, raise_to, raise_all, max_utilization, max_utilization_all,
}
use ccbroker.Base.{
  ℕ, zero, suc, String, ◌==◌, Bool, true, false, ◌&&◌, ◌||◌, Option, none, some, List, [], ◌∷◌, ℤ,
  Dict, lookup, eqb, codes, lower, contains, if◌then◌else◌,
}
use ccbroker.Base.Options.{◌>>=◌}
use ccbroker.Json.{
  Value, null, boolean, number, text, object, no_fields, of_int, read_text, read_bool, read_int,
  read_struct, text_at, to_dict,
}

pub data Request : Type 0 where
  refresh_grant : String → Request
  get_profile : String → Request
  get_usage : String → Request

pub record Response : Type 0 where
  pub status : ℕ
  pub body : String
  -- the body as encoding/json reads it, `none` if it is not JSON
  pub json : Option Value

-- `none`: no response at all.
abbrev pub Answer : Type 0
Answer = Option Response

pub data FetchError : Type 0 where
  network : FetchError
  status_error : ℕ → String → FetchError
  bad_json : FetchError

pub data Fetched {ℓ} (A : Type ℓ) : Type ℓ where
  fetched : A → Fetched A
  failed : FetchError → Fetched A

-- Status(err): 0 where err is no *StatusError
unfoldable pub status : FetchError → ℕ
status (status_error n body) = n
status _ = 0

unfoldable pub revoked : FetchError → Bool
revoked (status_error n body) = eqb n 403 && contains (lower (codes body)) (codes "revoked")
revoked _ = false

unfoldable pub auth_failure : FetchError → Bool
unfolding status revoked
auth_failure e = eqb (status e) 401 || revoked e

-- Result
pub record Grant : Type 0 where
  pub access_token : String
  pub refresh_token : String
  pub expires_in : ℤ
  pub scope : String
  pub account_email : String
  pub account_uuid : String

-- Err, whose body is the transport's message where there was no response
pub record RefreshError : Type 0 where
  pub status : ℕ
  pub code : String
  pub body : String
  pub permanent : Bool

pub data Refreshed : Type 0 where
  granted : Grant → Refreshed
  refused : RefreshError → Refreshed

-- json.Unmarshal into Result
unfoldable pub decode_grant : Option Value → Option Grant
decode_grant none = none
decode_grant (some v) = do
  d ← read_struct (some v)
  access ← read_text (lookup "access_token" d)
  refresh ← read_text (lookup "refresh_token" d)
  expires ← read_int (lookup "expires_in" d)
  scope ← read_text (lookup "scope" d)
  token_type ← read_text (lookup "token_type" d)
  account ← read_struct (lookup "account" d)
  email ← read_text (lookup "email_address" account)
  uuid ← read_text (lookup "uuid" account)
  some (record {
    access_token = access;
    refresh_token = refresh;
    expires_in = expires;
    scope = scope;
    account_email = email;
    account_uuid = uuid;
  })

unfoldable pub accept_grant : Response → Option Grant → Refreshed
accept_grant r none =
    refused (record { status = r.status; code = ""; body = "bad json"; permanent = false })
accept_grant r (some g) =
    if g.access_token == ""
    then refused (record {
      status = r.status;
      code = "";
      body = "no access_token in response";
      permanent = false;
    })
    else granted g

-- the "error" field of an error body; "" where it is absent or no text
unfoldable pub error_code : Option Value → String
error_code (some (object fs)) = text_at (to_dict fs) "error"
error_code _ = ""

unfoldable pub permanent_code : String → Bool
permanent_code c = c == "invalid_grant" || c == "invalid_client" || c == "unauthorized_client"

unfoldable pub refresh : Answer → Refreshed
refresh none = refused (record { status = 0; code = ""; body = "transport"; permanent = false })
refresh (some r) =
    if eqb r.status 200
    then accept_grant r (decode_grant r.json)
    else refused (record {
      status = r.status;
      code = error_code r.json;
      body = r.body;
      permanent = permanent_code (error_code r.json);
    })

or_null : Option Value → Value
or_null none = null
or_null (some x) = x

or_object : Option Value → Value
or_object none = object no_fields
or_object (some null) = object no_fields
or_object (some x) = x

-- json.Unmarshal into rawProfile, and the "oauthAccount" object made of it
unfoldable pub decode_profile : ℕ → Option Value → Option (Dict Value)
unfolding or_null or_object
decode_profile now none = none
decode_profile now (some v) = do
  d ← read_struct (some v)
  a ← read_struct (lookup "account" d)
  uuid ← read_text (lookup "uuid" a)
  email ← read_text (lookup "email" a)
  created ← read_text (lookup "created_at" a)
  o ← read_struct (lookup "organization" d)
  org ← read_text (lookup "uuid" o)
  name ← read_text (lookup "name" o)
  kind ← read_text (lookup "organization_type" o)
  billing ← read_text (lookup "billing_type" o)
  tier ← read_text (lookup "rate_limit_tier" o)
  extra ← read_bool (lookup "has_extra_usage_enabled" o)
  subscribed ← read_text (lookup "subscription_created_at" o)
  some (
      ("accountUuid", text uuid)
      ∷ ("emailAddress", text email)
      ∷ ("organizationUuid", text org)
      ∷ ("hasExtraUsageEnabled", boolean extra)
      ∷ ("billingType", text billing)
      ∷ ("accountCreatedAt", text created)
      ∷ ("subscriptionCreatedAt", text subscribed)
      ∷ ("ccOnboardingFlags", or_object (lookup "cc_onboarding_flags" o))
      ∷ ("claudeCodeTrialEndsAt", or_null (lookup "claude_code_trial_ends_at" o))
      ∷ ("claudeCodeTrialDurationDays", or_null (lookup "claude_code_trial_duration_days" o))
      ∷ ("seatTier", or_null (lookup "seat_tier" o))
      ∷ ("profileFetchedAt", number (of_int (ℤ.pos now)))
      ∷ ("organizationType", text kind)
      ∷ ("organizationRateLimitTier", text tier)
      ∷ ("userRateLimitTier", null)
      ∷ ("organizationName", text name)
      ∷ [])

decoded {ℓ} : {A : Type ℓ} → Option A → Fetched A
decoded none = failed bad_json
decoded (some a) = fetched a

-- FetchProfile, at time `now`
unfoldable pub fetch_profile : ℕ → Answer → Fetched (Dict Value)
unfolding decoded
fetch_profile now none = failed network
fetch_profile now (some r) =
    if eqb r.status 200
    then decoded (decode_profile now r.json)
    else failed (status_error r.status r.body)

-- FetchUsage
unfoldable pub fetch_usage : ResetTime → Answer → Fetched Usage
unfolding decoded
fetch_usage reset none = failed network
fetch_usage reset (some r) =
    if eqb r.status 200
    then decoded (decode_usage reset r.json)
    else failed (status_error r.status r.body)
