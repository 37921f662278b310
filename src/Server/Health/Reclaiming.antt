-- ===== src/Server/Health/Reclaiming.antt =====
-- What the last-resort refresh of a suspect credential comes to (reclaim of server.go).
use ccbroker.Base.{
  ◌==◌, if◌then◌else◌, ℤ, ◌≢◌, Option, Dict, lookup, ◌+ℤ◌, ◌*ℤ◌, pos, ℕ, String, ◌<◌, ◌≡◌, Bool,
  true, false, some,
}
use ccbroker.Json.{Value, text, number, of_int}
use ccbroker.Creds.{Record, ok, dead, access_token, refresh_token}
use ccbroker.Anthropic.{Refreshed, granted, refused, Grant, RefreshError, refresh_grant}
use ccbroker.Store
use ccbroker.Server.State.{Broker, Env, when◌then◌else◌, upstream}
use ccbroker.Server.Gen.{gen_of}
use ccbroker.Server.Ring.{retire_hash}

-- The oauth object after a grant: the granted tokens, the old refresh token if none was granted, the
-- expiry, and every other key but the scopes as before.
pub record Refreshes (g : Grant) (expires : ℤ) (old new : Dict Value) : Type 0 where
  pub access : lookup "accessToken" new ≡ some (text g.access_token)
  pub rotated :
      lookup "refreshToken" new
      ≡ (if g.refresh_token == "" then lookup "refreshToken" old else some (text g.refresh_token))
  pub expiry : lookup "expiresAt" new ≡ some (number (of_int expires))
  pub others :
      (k : String)
      → k ≢ "accessToken"
      → k ≢ "refreshToken"
      → k ≢ "expiresAt"
      → k ≢ "scopes"
      → lookup k new ≡ lookup k old

module _ (env : Env) where
  -- What a permanent refusal, and one that may pass, leaves of a record, where `before` is what was
  -- stored when the answer came.
  abbrev pub Refused : Bool → Record → RefreshError → Option Record → Option Record → Type 0
  Refused true old e before after =
      (new : Record) × (after ≡ some new)
      × (new.health_state ≡ dead)
      × (new.oauth ≡ old.oauth)
      × (new.last_error ≡ env.refresh_error_text e)
      × (gen_of before < new.gen)
  Refused false old e before after = after ≡ before

  -- What the answer to a refresh makes of a record.
  abbrev pub Answered : Refreshed → Record → Option Record → Option Record → Type 0
  Answered (granted g) old before after =
      (new : Record) × (after ≡ some new)
      × (new.health_state ≡ ok)
      × ((t : ℕ) × Refreshes g (pos t +ℤ g.expires_in *ℤ pos 1000) old.oauth new.oauth)
      × (new.retired_hashes ≡ retire_hash old.retired_hashes (env.sha256hex (access_token old)))
      × (gen_of before < new.gen)
  Answered (refused e) old before after = Refused e.permanent old e before after

  -- The state when the answer to the refresh comes, with what the other goroutines did meanwhile.
  abbrev pub answered_at : Record → Broker → Broker
  answered_at rec s = (upstream env (some rec.name) (refresh_grant (refresh_token rec)) s).1
