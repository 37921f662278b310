-- ===== src/Server/Examples/Offers.antt =====
-- Offers of new and of displaced tokens.
use ccbroker.Anthropic.{Grant, decode_profile, fetch_profile, fetched}
use ccbroker.Base.{
  trim_space, strip_prefix, Dict, [], arith, eq_iff, erase, false, insert, lookup, pos, refl, some,
  true, values, ◌*ℤ◌, ◌+ℤ◌, ◌-ℤ◌, ◌∷◌, ◌≡◌, ◌≢◌,
}
use ccbroker.Creds.{Record, access_token}
use ccbroker.Json.{Value, field, no_fields, number, object, of_int, text, text_at, to_dict, to_int}
use ccbroker.Server.Access.{
  auth_client, client_of, has_hash, rate_limit_offer, count_offer, set_rate,
}
use ccbroker.Server.Examples.{broker, new_evidence, new_tokens, old_evidence, quiet_env, work}
use ccbroker.Server.Gen.{commit, cred_state, next_gen, publish, put, stored, wake, with_record}
use ccbroker.Server.Offer.{
  offer_as, offer_parsed, offer_oauth, offer_again, parse_oauth, validate_oauth, parsed,
  OfferRequest, adopt, apparent_age, attempt, decide, handle_offer, hash_of, no_answer,
  offer_identified, offer_routed, offer_to, offer_verified, replacement, rollback, turned_down,
}
use ccbroker.Server.Offer.Adoption.{RoutedTo, attempt-Adopts, evidence, fetched_at, says_adopted}
use ccbroker.Server.Offer.Saved.{OnDisk, handle_offer-OnDisk}
use ccbroker.Server.Offer.Answers.{handle_offer-answers}
use ccbroker.Server.Offer.Rollback.{adopt-rollback, refresh-rollback}
use ccbroker.Server.Refresh.{apply_refresh, clear_backoff, granted_oauth, refresh_granted}
use ccbroker.Server.Ring.{contains_str, retire_hash}
use ccbroker.Server.Route.{matched, route_by_account}
use ccbroker.Server.State.{
  draw, gets, lock, match_option, modify, now, pure, upstream, wait, when◌then◌else◌, ◌>>=◌,
}
use ccbroker.Store.{Store, save}
use ccbroker.Store

-- The record that an adopted offer of `new_tokens` leaves.
abbrev adopted_work : Record
adopted_work = record work {
  oauth = new_tokens;
  gen = 1001;
  health_since = 1000;
  retired_hashes = "a0" ∷ "a1" ∷ [];
  updated_at = 1002;
}

work-adopted :
    Store.get "work" (adopt quiet_env "work" new_evidence work broker).1.store ≡ some adopted_work
unfolding adopt replacement access_token text_at retire_hash commit stored gets Store.get lookup now
    ◌>>=◌ draw pure when◌then◌else◌ put Store.put Store.save insert next_gen publish modify wake
    cred_state
work-adopted = refl

a1-ne-empty : hash_of quiet_env work ≢ ""
unfolding access_token text_at lookup
a1-ne-empty h = ground (arith, eq_iff "a1" "")

a1-hash : old_evidence.hash ≡ hash_of quiet_env work
unfolding access_token text_at lookup
a1-hash = refl

adopt-rollback_example :
    (offer_to quiet_env true old_evidence adopted_work broker).0
    ≡ some (turned_down "work" rollback "a@x" 1001)
adopt-rollback_example =
    adopt-rollback quiet_env "work" new_evidence old_evidence work adopted_work broker broker true
      a1-ne-empty a1-hash work-adopted

abbrev rotated : Grant
rotated = record {
  access_token = "a3";
  refresh_token = "r3";
  expires_in = pos 9;
  scope = "";
  account_email = "";
  account_uuid = "";
}

abbrev refreshed_work : Record
refreshed_work = record work {
  oauth =
      ("accessToken", text "a3")
      ∷ ("refreshToken", text "r3")
      ∷ ("expiresAt", number (of_int (pos 10000)))
      ∷ [];
  gen = 1002;
  health_since = 1001;
  retired_hashes = "a0" ∷ "a1" ∷ [];
  updated_at = 1003;
}

work-refreshed :
    Store.get "work" (refresh_granted quiet_env work rotated broker).1.store ≡ some refreshed_work
unfolding refresh_granted apply_refresh granted_oauth access_token text_at retire_hash clear_backoff
    ◌+ℤ◌ ◌*ℤ◌ erase commit stored gets Store.get lookup now ◌>>=◌ draw pure when◌then◌else◌ put
    Store.put Store.save insert next_gen publish modify wake cred_state
work-refreshed = refl

refresh-rollback_example :
    (offer_to quiet_env false old_evidence refreshed_work broker).0
    ≡ some (turned_down "work" rollback "a@x" 1002)
refresh-rollback_example =
    refresh-rollback quiet_env work refreshed_work rotated old_evidence broker broker false
      a1-ne-empty a1-hash work-refreshed

new_tokens-adopted : says_adopted (attempt quiet_env true new_tokens broker).0 ≡ true
unfolding attempt offer_verified offer_identified offer_routed offer_to decide adopt replacement
    route_by_account fetch_profile decode_profile to_dict upstream lock wait with_record
    match_option contains_str access_token text_at retire_hash Store.list values commit stored gets
    Store.get lookup now ◌>>=◌ draw pure when◌then◌else◌ put Store.put Store.save insert next_gen
    publish modify wake cred_state
new_tokens-adopted = refl

attempt-Adopts_example :
    (acct : Dict Value) × ((fetched_at quiet_env new_tokens broker).1 ≡ fetched acct)
    × RoutedTo quiet_env
        (evidence quiet_env new_tokens broker acct)
        (fetched_at quiet_env new_tokens broker).0
attempt-Adopts_example = attempt-Adopts quiet_env true new_tokens broker new_tokens-adopted

abbrev offer_new : OfferRequest
offer_new = record {
  authorization = "Bearer tok";
  is_post = true;
  body =
      some (object (field "accessToken" (text "a2") (field "refreshToken" (text "r2") no_fields)));
}

offer_new-adopted : says_adopted (some (handle_offer quiet_env offer_new broker).0) ≡ true
unfolding handle_offer offer_as trim_space auth_client client_of has_hash strip_prefix
    rate_limit_offer count_offer set_rate offer_parsed parse_oauth validate_oauth offer_oauth
    offer_again attempt offer_verified offer_identified offer_routed offer_to decide adopt
    replacement route_by_account fetch_profile decode_profile to_dict upstream lock wait with_record
    match_option contains_str access_token text_at retire_hash Store.list values commit stored gets
    Store.get lookup now ◌>>=◌ draw pure when◌then◌else◌ put Store.put Store.save insert next_gen
    publish modify wake cred_state
offer_new-adopted = refl

handle_offer-OnDisk_example :
    (oauth : Dict Value) × (parse_oauth offer_new.body ≡ parsed oauth)
    × OnDisk oauth (handle_offer quiet_env offer_new broker).1
handle_offer-OnDisk_example = handle_offer-OnDisk quiet_env offer_new broker offer_new-adopted

handle_offer-answers_example : (handle_offer quiet_env offer_new broker).0 ≢ no_answer
handle_offer-answers_example = handle_offer-answers quiet_env offer_new broker

new_tokens-age : apparent_age new_tokens 1000 ≡ some (pos 19801000)
unfolding apparent_age lookup to_int ◌-ℤ◌
new_tokens-age = refl

work-routed : route_by_account "" "a@x" (work ∷ []) ≡ matched work
unfolding route_by_account
work-routed = refl
