-- ===== src/Server/Offer.antt =====
-- POST /v1/creds/offer (server.go: parseOAuth, validateOAuth, oauthApparentAge, handleOffer).
pub mod Adoption
pub mod Rollback
pub mod Answers
pub mod Saved
use ccbroker.Base.{
  ℕ, String, ◌==◌, eqb, Bool, true, false, not, ◌||◌, Option, none, some, ℤ, pos, ◌-ℤ◌, ltb_ℤ,
  leb_ℤ, Dict, lookup, if◌then◌else◌,
}
use ccbroker.Json.{Value, null, text, object, to_dict, text_at}
use ccbroker.Creds.{Record, ok, access_token, millis}
use ccbroker.Anthropic.{
  get_profile, Fetched, fetched, failed, FetchError, auth_failure, fetch_profile,
}
use ccbroker.Config.{Client}
use ccbroker.Store
use ccbroker.Server.State.{
  when◌then◌else◌, Env, M, pure, gets, ◌>>=◌, ◌>>◌, match_option, now, upstream, lock,
}
use ccbroker.Server.Gen.{with_record, commit}
use ccbroker.Server.Ring.{retire_hash, contains_str}
use ccbroker.Server.Refresh.{first_nonempty}
use ccbroker.Server.Route.{Routed, matched, ambiguous_account, unknown_account, route_by_account}
use ccbroker.Server.Access.{auth_client, rate_limit_offer}

pub data Parsed : Type 0 where
  parsed : Dict Value → Parsed
  invalid_json empty_object missing_refresh_token : Parsed

abbrev pub with_refresh : Dict Value → Option Value → Parsed
with_refresh m (some (text s)) = parsed m
with_refresh m _ = missing_refresh_token

-- validateOAuth, of an object that is not nil
unfoldable pub validate_oauth : Dict Value → Parsed
validate_oauth m = with_refresh m (lookup "refreshToken" m)

abbrev pub inner : Dict Value → Option Value → Parsed
inner m (some (object fs)) = validate_oauth (to_dict fs)
inner m _ = validate_oauth m

-- parseOAuth, of the body as encoding/json reads it
unfoldable pub parse_oauth : Option Value → Parsed
parse_oauth (some (object fs)) = inner (to_dict fs) (lookup "claudeAiOauth" (to_dict fs))
parse_oauth (some null) = empty_object
parse_oauth _ = invalid_json

-- 8h, 9h and freshUnverifiedWindow, in milliseconds
abbrev pub token_lifetime : ℕ
token_lifetime = 28800000

abbrev pub max_age : ℕ
max_age = 32400000

abbrev pub fresh_window : ℕ
fresh_window = 900000

-- oauthApparentAge, in milliseconds
unfoldable pub apparent_age : Dict Value → ℕ → Option ℤ
apparent_age oauth t =
    let exp = millis (lookup "expiresAt" oauth) in
    let age = pos t -ℤ (exp -ℤ pos token_lifetime) in
    if leb_ℤ exp (pos 0)
    then none
    else if ltb_ℤ age (pos 0) || ltb_ℤ (pos max_age) age
    then none
    else some age

abbrev is_fresh : Option ℤ → Bool
is_fresh none = false
is_fresh (some age) = ltb_ℤ age (pos fresh_window)

pub data Reason : Type 0 where
  accepted fresh_unverified offer_not_live verify_unavailable migration_pending : Reason
  ambiguous unknown rollback conflict already_current : Reason

-- The JSON body of a 200; `accepted` is the empty reason of an adopted offer.
pub record Verdict : Type 0 where
  pub adopted : Bool
  pub name : String
  pub reason : Reason
  pub account : String
  pub gen : ℕ

-- `no_answer`: the loop ends and nothing was written.
pub data OfferReply : Type 0 where
  unauthorized method_not_allowed rate_limited bad_body missing_access commit_error no_answer :
      OfferReply
  answered : Verdict → OfferReply

pub record OfferRequest : Type 0 where
  pub authorization : String
  pub is_post : Bool
  pub body : Option Value

abbrev pub turned_down : String → Reason → String → ℕ → OfferReply
turned_down name reason account gen =
    answered
      (record { adopted = false; name = name; reason = reason; account = account; gen = gen })

abbrev pub taken_up : String → Record → OfferReply
taken_up name r =
    answered (record {
      adopted = true;
      name = r.name;
      reason = accepted;
      account = r.account;
      gen = r.gen;
    })

-- What one attempt verified: the store's version before, the offered object, its hash and identity.
pub record Evidence : Type 0 where
  pub version : ℕ
  pub oauth : Dict Value
  pub hash : String
  pub email : String
  pub uuid : String

module _ (env : Env) where
  abbrev pub hash_of : Record → String
  hash_of r = env.sha256hex (access_token r)

  -- The record that an adopted offer puts in the place of `cur`.
  unfoldable pub replacement : Evidence → Record → ℕ → Record
  replacement e cur since = record cur {
    retired_hashes = retire_hash cur.retired_hashes (hash_of cur);
    oauth = e.oauth;
    account = first_nonempty e.email cur.account;
    account_uuid = first_nonempty e.uuid cur.account_uuid;
    health_state = ok;
    health_since = since;
    last_error = "";
  }

  -- ADOPT
  unfoldable pub adopt : String → Evidence → Record → M (Option OfferReply)
  adopt name e cur = do
    since ← now env
    written ← commit env (replacement e cur since)
    when written.1 then pure (some (taken_up name written.0)) else pure (some commit_error)

  -- (e), with the record that the mutex now guards; `none` is the `continue` of the first attempt.
  unfoldable pub decide : Bool → Evidence → Record → Record → M (Option OfferReply)
  decide first e match cur = do
    version ← gets (λ s. s.store_ver)
    when not (eqb cur.gen match.gen) || not (eqb version e.version)
        then (when first
            then pure none
            else pure (some (turned_down match.name conflict e.email cur.gen)))
        else when hash_of cur == e.hash
        then pure (some (turned_down match.name already_current e.email cur.gen))
        else adopt match.name e cur

  -- (d), then the mutex
  unfoldable pub offer_to : Bool → Evidence → Record → M (Option OfferReply)
  offer_to first e match =
      when contains_str match.retired_hashes e.hash
      then pure (some (turned_down match.name rollback e.email match.gen))
      else do
        lock env
        with_record match.name (pure (some (turned_down "" unknown e.email 0)))
            (decide first e match)

  -- (c)
  unfoldable pub offer_routed : Bool → Evidence → Routed → M (Option OfferReply)
  offer_routed first e ambiguous_account = pure (some (turned_down "" ambiguous e.email 0))
  offer_routed first e unknown_account = pure (some (turned_down "" unknown e.email 0))
  offer_routed first e (matched r) = offer_to first e r

  unfoldable pub offer_identified : Bool → Evidence → M (Option OfferReply)
  offer_identified first e = do
    migrated ← gets (λ s. s.migrated)
    recs ← gets (λ s. Store.list s.store)
    when not migrated
        then pure (some (turned_down "" migration_pending e.email 0))
        else offer_routed first e (route_by_account e.uuid e.email recs)

  unfoldable pub offer_failed : Dict Value → FetchError → M (Option OfferReply)
  offer_failed oauth err =
      when auth_failure err
      then (do
        t ← now env
        when is_fresh (apparent_age oauth t)
            then pure (some (turned_down "" fresh_unverified "" 0))
            else pure (some (turned_down "" offer_not_live "" 0)))
      else pure (some (turned_down "" verify_unavailable "" 0))

  unfoldable pub offer_verified :
      Bool → ℕ → Dict Value → Fetched (Dict Value) → M (Option OfferReply)
  offer_verified first version oauth (failed err) = offer_failed oauth err
  offer_verified first version oauth (fetched acct) = offer_identified first (record {
    version = version;
    oauth = oauth;
    hash = env.sha256hex (text_at oauth "accessToken");
    email = text_at acct "emailAddress";
    uuid = text_at acct "accountUuid";
  })

  -- One round of the loop.
  unfoldable pub attempt : Bool → Dict Value → M (Option OfferReply)
  attempt first oauth = do
    version ← gets (λ s. s.store_ver)
    t ← now env
    a ← upstream env none (get_profile (text_at oauth "accessToken"))
    offer_verified first version oauth (fetch_profile t a)

  -- The second round, which always answers.
  unfoldable pub offer_again : Dict Value → M OfferReply
  offer_again oauth = do two ← attempt false oauth; match_option two (pure no_answer) pure

  -- The loop: a second round only after a `continue`.
  unfoldable pub offer_oauth : Dict Value → M OfferReply
  offer_oauth oauth =
      when text_at oauth "accessToken" == ""
      then pure missing_access
      else do one ← attempt true oauth; match_option one (offer_again oauth) pure

  unfoldable pub offer_parsed : Parsed → M OfferReply
  offer_parsed (parsed oauth) = offer_oauth oauth
  offer_parsed _ = pure bad_body

  unfoldable pub offer_as : OfferRequest → Client → M OfferReply
  offer_as req client = when not req.is_post then pure method_not_allowed else do
    passes ← rate_limit_offer env client.name
    when passes then offer_parsed (parse_oauth req.body) else pure rate_limited

  -- handleOffer
  unfoldable pub handle_offer : OfferRequest → M OfferReply
  handle_offer req =
      match_option (auth_client env req.authorization) (pure unauthorized) (offer_as req)
