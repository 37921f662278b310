-- ===== src/Wire/Examples/Lineages.antt =====
-- A refresh token that the client offers and the broker adopts.
use mathlib.Core.List.{Memᴰ}
use ccbroker.Ccb.State.{Event, Answer, call, offer}
use ccbroker.Ccb.Local.{same_oauth, oauth_str}
use ccbroker.Ccb.Broker.{offer_result, decode_offer_result}
use ccbroker.Ccb.Log.{Secured}
use ccbroker.Wire.{offer_response, verdict_json, reason_text}
use ccbroker.Wire.Lineage.{request_of}
use ccbroker.Anthropic.{decode_profile, fetch_profile}
use ccbroker.Base.{
  List, inl, trim_space, strip_prefix, Dict, [], erase, false, insert, lookup, refl, some, true,
  values, ◌∷◌, ◌≡◌,
}
use ccbroker.Creds.{access_token}
use ccbroker.Json.{of_dict, Value, text, text_at, to_dict}
use ccbroker.Server.Access.{
  auth_client, client_of, has_hash, rate_limit_offer, count_offer, set_rate,
}
use ccbroker.Server.Examples.{broker, quiet_env}
use ccbroker.Server.Gen.{commit, cred_state, next_gen, publish, put, stored, wake, with_record}
use ccbroker.Server.Offer.{
  offer_as, offer_parsed, offer_oauth, offer_again, parse_oauth, validate_oauth, adopt, attempt,
  decide, handle_offer, offer_identified, offer_routed, offer_to, offer_verified, replacement,
}
use ccbroker.Server.Ring.{contains_str, retire_hash}
use ccbroker.Server.Route.{route_by_account}
use ccbroker.Server.State.{
  draw, gets, lock, match_option, modify, now, pure, upstream, wait, when◌then◌else◌, ◌>>=◌,
}
use ccbroker.Store.{Store, save}
use ccbroker.Store

-- An offer that the broker of the server's examples adopts.
abbrev tokens_offered : Dict Value
tokens_offered = ("accessToken", text "a2") ∷ ("refreshToken", text "r2") ∷ []

abbrev broker_answer : Answer
broker_answer = some (
    offer_response
      (handle_offer quiet_env (request_of quiet_env "Bearer tok" tokens_offered) broker).0)

abbrev client_log : List Event
client_log = call (offer tokens_offered) broker_answer ∷ []

offer-adopted : (offer_result broker_answer).adopted ≡ true
unfolding offer_result offer_response decode_offer_result verdict_json reason_text to_dict of_dict
    insert erase handle_offer offer_as trim_space auth_client client_of has_hash strip_prefix
    rate_limit_offer count_offer set_rate offer_parsed parse_oauth validate_oauth offer_oauth
    offer_again attempt offer_verified offer_identified offer_routed offer_to decide adopt
    replacement route_by_account fetch_profile decode_profile upstream lock wait with_record
    match_option contains_str access_token text_at retire_hash Store.list values commit stored gets
    Store.get lookup now ◌>>=◌ draw pure when◌then◌else◌ put Store.put Store.save next_gen publish
    modify wake cred_state
offer-adopted = refl

same-tokens : same_oauth (some tokens_offered) (some tokens_offered) ≡ true
unfolding same_oauth oauth_str text_at lookup
same-tokens = refl

abbrev client_evidence : Secured (some tokens_offered) false client_log
client_evidence = record {
  offered = tokens_offered;
  answer = broker_answer;
  in_log = Memᴰ.head refl;
  same = same-tokens;
  lets_go = inl offer-adopted;
}
