-- ===== src/Creds.antt =====
-- internal/creds/creds.go: the stored record of a credential, and what is served of it. A nil OAuth
-- map reads as the empty one. Times are unix milliseconds.
pub mod Serving
use ccbroker.Base.{
  ℕ, String, ◌==◌, Bool, true, false, Option, none, some, List, ℤ, pos, Dict, lookup, erase,
  if◌then◌else◌,
}
use ccbroker.Json.{Value, number, to_int, text_at}

-- `unset` is the empty string of a record from before v0.4, `other` any further text.
pub data HealthState : Type 0 where
  unset ok suspect dead : HealthState
  other : String → HealthState

pub record Record : Type 0 where
  pub name : String
  pub account : String
  pub account_uuid : String
  pub oauth : Dict Value
  pub gen : ℕ
  pub health_state : HealthState
  pub health_since : ℕ
  pub retired_hashes : List String
  pub updated_at : ℕ
  pub legacy_dead : Bool
  pub last_error : String

unfoldable pub access_token : Record → String
access_token r = text_at r.oauth "accessToken"

unfoldable pub refresh_token : Record → String
refresh_token r = text_at r.oauth "refreshToken"

abbrev normalized : HealthState → Bool → HealthState
normalized unset legacy = if legacy then dead else ok
normalized h legacy = h

unfoldable pub health : Record → HealthState
health r = normalized r.health_state r.legacy_dead

abbrev pub millis : Option Value → ℤ
millis (some (number d)) = to_int d
millis _ = pos 0

unfoldable pub expires_at_ms : Record → ℤ
expires_at_ms r = millis (lookup "expiresAt" r.oauth)

unfoldable pub served_oauth : Record → Bool → Dict Value
served_oauth r include_refresh = if include_refresh then r.oauth else erase "refreshToken" r.oauth

-- rec.Health() == state
unfoldable pub same_health : HealthState → HealthState → Bool
same_health unset unset = true
same_health ok ok = true
same_health suspect suspect = true
same_health dead dead = true
same_health (other s) (other t) = s == t
same_health _ _ = false
