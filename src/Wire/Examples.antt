-- ===== src/Wire/Examples.antt =====
-- Replies of the broker as the client takes them.
mod Lineages
use ccbroker.Base.{String, ◌≡◌, refl, true, false, some, [], ◌∷◌, pos, Dict, lookup, insert}
use ccbroker.Json.{Value, text, to_dict, of_dict}
use ccbroker.Server.Offer.{Verdict, answered, rollback}
use ccbroker.Server.GetCred.{Envelope}
use ccbroker.Ccb.Gate.{overwrite_decision}
use ccbroker.Ccb.Broker.{offer_result, decode_envelope, decode_offer_result}
use ccbroker.Wire.{offer_response, envelope_json, reason_text, verdict_json}
use ccbroker.Wire.Agreement.{Assents, decode_envelope-envelope_json, overwrite_decision-Assents}

abbrev rolled_back : Verdict
rolled_back = record { adopted = false; name = "work"; reason = rollback; account = "a@x"; gen = 7 }

gate-passed : overwrite_decision true false "rollback" false ≡ true
unfolding overwrite_decision
gate-passed = refl

overwrite_decision-Assents_example :
    (v : Verdict) × (answered rolled_back ≡ answered v) × Assents v false
unfolding offer_result offer_response decode_offer_result verdict_json reason_text lookup to_dict
    of_dict insert
overwrite_decision-Assents_example =
    overwrite_decision-Assents (answered rolled_back) false gate-passed

abbrev envelope : Envelope
envelope = record {
  oauth = ("accessToken", text "a1") ∷ [];
  gen = 7;
  account = "a@x";
  probe_live = some true;
}
