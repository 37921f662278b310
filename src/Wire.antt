-- ===== src/Wire.antt =====
-- What goes over the wire: the JSON bodies that server.go answers an offer and a credential request
-- with (respond in handleOffer, the end of handleGetCred), as cmd/ccb/main.go receives them.
pub mod Agreement
pub mod Lineage
mod Examples
use ccbroker.Base.{ℕ, String, Bool, Option, none, some, List, [], ◌∷◌, ◌++◌, pos, Dict}
use ccbroker.Json.{Value, object, text, number, boolean, of_int, of_dict}
use ccbroker.Server.Offer.{
  Reason, accepted, fresh_unverified, offer_not_live, verify_unavailable, migration_pending,
  ambiguous, unknown, rollback, conflict, already_current, Verdict, OfferReply, unauthorized,
  method_not_allowed, rate_limited, bad_body, missing_access, commit_error, no_answer, answered,
}
use ccbroker.Server.GetCred.{CredReply, Envelope, served, status_code}
use ccbroker.Ccb.State.{Response}

unfoldable pub reason_text : Reason → String
reason_text accepted = ""
reason_text fresh_unverified = "fresh_unverified"
reason_text offer_not_live = "offer_not_live"
reason_text verify_unavailable = "verify_unavailable"
reason_text migration_pending = "migration_pending"
reason_text ambiguous = "ambiguous_account"
reason_text unknown = "unknown_account"
reason_text rollback = "rollback"
reason_text conflict = "conflict"
reason_text already_current = "already_current"

abbrev pub int_value : ℕ → Value
int_value n = number (of_int (pos n))

-- respond
abbrev pub verdict_fields : Verdict → Dict Value
verdict_fields v =
    ("adopted", boolean v.adopted)
    ∷ ("name", text v.name)
    ∷ ("reason", text (reason_text v.reason))
    ∷ ("account", text v.account)
    ∷ ("gen", int_value v.gen)
    ∷ []

unfoldable pub verdict_json : Verdict → Value
verdict_json v = object (of_dict (verdict_fields v))

abbrev plain_error : ℕ → Response
plain_error status = record { status = status; gen_header = ""; json = none }

-- What handleOffer writes. A handler without an answer leaves an empty 200.
unfoldable pub offer_response : OfferReply → Response
offer_response unauthorized = plain_error 401
offer_response method_not_allowed = plain_error 405
offer_response rate_limited = plain_error 429
offer_response bad_body = plain_error 400
offer_response missing_access = plain_error 400
offer_response commit_error = plain_error 500
offer_response no_answer = plain_error 200
offer_response (answered v) = record { status = 200; gen_header = ""; json = some (verdict_json v) }

abbrev probe_field : Option Bool → Dict Value
probe_field none = []
probe_field (some live) = ("probeLive", boolean live) ∷ []

abbrev pub envelope_fields : Envelope → Dict Value
envelope_fields e =
    ("claudeAiOauth", object (of_dict e.oauth))
    ∷ ("gen", int_value e.gen)
    ∷ ("account", text e.account)
    ∷ probe_field e.probe_live

-- The body of a served credential.
unfoldable pub envelope_json : Envelope → Value
envelope_json e = object (of_dict (envelope_fields e))
