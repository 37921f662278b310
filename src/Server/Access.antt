-- ===== src/Server/Access.antt =====
-- Who may call (server.go: authClient, scopeAllows, rateLimitOffer, adminAuth).
pub mod Limits
use ccbroker.Base.{
  ℕ, ◌+◌, String, ◌==◌, Bool, true, false, not, ◌&&◌, ◌||◌, Option, none, some, List, [], ◌∷◌,
  lookup, insert, leb, codes, lower, same_codes, strip_prefix, trim_space, if◌then◌else◌,
}
use ccbroker.Config.{Client}
use ccbroker.Server.State.{Broker, RateEntry, Env, M, pure, gets, modify, ◌>>=◌, ◌>>◌, now}

-- The configured hash, trimmed and in lower case, is the hash of the token. The comparison in
-- constant time is equality of texts of one length.
unfoldable pub has_hash : String → Client → Bool
has_hash got c = same_codes (codes got) (lower (codes (trim_space c.token_sha256)))

-- The first client with the hash.
unfoldable pub client_of : String → List Client → Option Client
client_of got [] = none
client_of got (c ∷ cs) = if has_hash got c then some c else client_of got cs

-- scopeAllows
unfoldable pub scopes_allow : String → List String → Bool
scopes_allow name [] = false
scopes_allow name (sc ∷ rest) = sc == "*" || sc == name || scopes_allow name rest

abbrev pub scope_allows : Client → String → Bool
scope_allows c name = scopes_allow name c.scopes

abbrev bearer : Option String → String
bearer none = ""
bearer (some rest) = trim_space rest

-- The fixed window of rateLimitOffer, at time `t`: the client's new entry and whether the offer
-- passes. `now-e.windowStart >= 60_000` is compared with the period on the other side.
unfoldable pub count_offer : ℕ → ℕ → Option RateEntry → RateEntry × Bool
count_offer rate t none = (record { count = 1; window_start = t }, true)
count_offer rate t (some e) =
    if leb (e.window_start + 60000) t
    then (record { count = 1; window_start = t }, true)
    else if leb rate e.count
    then (e, false)
    else (record e { count = e.count + 1 }, true)

unfoldable pub set_rate : String → RateEntry → Broker → Broker
set_rate client e s = record s { rate = insert client e s.rate }

module _ (env : Env) where
  -- authClient, of the Authorization header
  unfoldable pub auth_client : String → Option Client
  auth_client header =
      let tok = bearer (strip_prefix "Bearer " header) in
      if tok == "" then none else client_of (env.sha256hex tok) env.cfg.clients

  -- rateLimitOffer
  unfoldable pub rate_limit_offer : String → M Bool
  rate_limit_offer client = do
    t ← now env
    e ← gets (λ s. lookup client s.rate)
    let counted = count_offer env.offer_rate t e
    modify (set_rate client counted.0)
    pure counted.1

  -- adminAuth, of the X-Admin-Token header
  unfoldable pub admin_auth : String → Bool
  admin_auth token = not (env.cfg.admin_token == "" || token == "") && token == env.cfg.admin_token
