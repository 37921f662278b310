-- ===== src/Wire/Agreement.antt =====
-- The client reads what the broker wrote, and its gate goes by the broker's verdict.
use ccbroker.Base.{
  ℕ, String, ◌≡◌, refl, ◌⊎◌, inl, inr, Bool, true, false, Option, none, some, pos, Dict, lookup,
  insert, arith,
}
use ccbroker.Json.{Value, to_dict, of_dict}
use ccbroker.Json.Printing.{lookup-of_dict}
use ccbroker.Server.Offer.{
  Verdict, OfferReply, answered, rollback, already_current, offer_not_live, Reason,
}
use ccbroker.Server.GetCred.{Envelope}
use ccbroker.Ccb.Gate.{overwrite_decision}
use ccbroker.Ccb.Broker.{OfferResult, decode_offer_result, offer_result, decode_envelope}
use ccbroker.Wire.{reason_text, verdict_json, offer_response, envelope_json}

-- The result that a verdict is read as.
abbrev pub result_of : Verdict → OfferResult
result_of v = record {
  adopted = v.adopted;
  name = v.name;
  reason = reason_text v.reason;
  account = v.account;
  gen = pos v.gen;
}

abbrev or_false : Option Bool → Bool
or_false none = false
or_false (some b) = b

-- The client reads the verdict that the broker answers an offer with, field by field.
pub offer_result-offer_response :
    (v : Verdict) → offer_result (some (offer_response (answered v))) ≡ result_of v
unfolding offer_result offer_response decode_offer_result verdict_json to_dict of_dict lookup insert
offer_result-offer_response v = refl

read_back :
    (e : Envelope) (probe : Option Bool)
    → e.probe_live ≡ probe
    → decode_envelope (some (envelope_json e))
      ≡ some (record {
        oauth = to_dict (of_dict e.oauth);
        gen = pos e.gen;
        account = e.account;
        probe_live = or_false e.probe_live;
      })
unfolding decode_envelope envelope_json to_dict of_dict lookup insert
read_back e none h = rw h refl
read_back e (some live) h = rw h refl

-- The client reads the envelope that the broker serves: the same generation, account and attestation
-- (none counts as not live), and an oauth object with the same lookups.
pub decode_envelope-envelope_json :
    (e : Envelope)
    → (oauth : Dict Value) × (decode_envelope (some (envelope_json e))
        ≡ some (record {
          oauth = oauth;
          gen = pos e.gen;
          account = e.account;
          probe_live = or_false e.probe_live;
        }))
      × ((k : String) → lookup k oauth ≡ lookup k e.oauth)
decode_envelope-envelope_json e =
    (to_dict (of_dict e.oauth), read_back e e.probe_live refl, λ k. lookup-of_dict k e.oauth)

-- The verdict lets the local token go.
abbrev pub Assents : Verdict → Bool → Type 0
Assents v live =
    (v.adopted ≡ true)
    ⊎ (v.reason ≡ already_current)
    ⊎ (v.reason ≡ rollback)
    ⊎ ((v.reason ≡ offer_not_live) × (live ≡ true))

gate-reason :
    (adopted live : Bool) (name account : String) (reason : Reason) (gen : ℕ)
    → overwrite_decision true adopted (reason_text reason) live ≡ true
    → Assents
        (record { adopted = adopted; name = name; reason = reason; account = account; gen = gen })
        live
unfolding overwrite_decision reason_text
gate-reason true live name account reason gen h = inl refl
gate-reason false live name account already_current gen h = inr (inl refl)
gate-reason false live name account rollback gen h = inr (inr (inl refl))
gate-reason false live name account offer_not_live gen h = inr (inr (inr (refl, h)))
gate-reason false live name account _ gen h = absurd (ground arith)

-- The client's gate opens for a local refresh token, on the broker's answer to its offer, only if
-- that answer is a verdict which adopted the token, or which has it for current or for a rolled
-- back one, or for one that upstream rejects while the broker's own is attested live.
pub overwrite_decision-Assents :
    (reply : OfferReply) (live : Bool)
    → overwrite_decision true
        (offer_result (some (offer_response reply))).adopted
        (offer_result (some (offer_response reply))).reason
        live
      ≡ true
    → (v : Verdict) × (reply ≡ answered v) × Assents v live
unfolding offer_result offer_response overwrite_decision decode_offer_result verdict_json to_dict
    of_dict lookup insert
overwrite_decision-Assents (answered v) live h =
    (v, refl, gate-reason v.adopted live v.name v.account v.reason v.gen h)
overwrite_decision-Assents _ live h = absurd (ground arith)
