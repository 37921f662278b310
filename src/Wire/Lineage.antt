-- ===== src/Wire/Lineage.antt =====
-- The client and the broker together: what becomes of a refresh token that the client overwrites.
use ccbroker.Base.{String, ◌≡◌, ◌⊎◌, inl, inr, Bool, true, none, some, List, Dict, lookup}
use mathlib.Core.List.{Memᴰ}
use ccbroker.Json.{Value, object, of_dict, text_at}
use ccbroker.Creds.{Record, refresh_token}
use ccbroker.Server.State.{Env, Broker}
use ccbroker.Server.Offer.{
  OfferRequest, Verdict, answered, handle_offer, already_current, rollback, offer_not_live,
}
use ccbroker.Ccb.State.{Event, Answer, call, offer}
use ccbroker.Wire.{offer_response}

module _ (env : Env) (authorization : String) where
  -- The request of offerCred.
  abbrev pub request_of : Dict Value → OfferRequest
  request_of d = record {
    authorization = authorization;
    is_post = true;
    body = some (object (of_dict d));
  }

  -- What the broker says to an offer in a state of it.
  abbrev pub reply_in : Dict Value → Broker → Answer
  reply_in d s = some (offer_response (handle_offer env (request_of d) s).0)

  -- Where an answer comes from: there was none, or the broker gave it in this state.
  abbrev pub Origin : Dict Value → Answer → Type 0
  Origin d a = (a ≡ none) ⊎ ((s : Broker) × (a ≡ reply_in d s))

  -- Every offer in the log that got an answer was answered by the broker, each in some state of it.
  abbrev pub FromBroker : List Event → Type 0
  FromBroker log = (d : Dict Value) (a : Answer) → Memᴰ (call (offer d) a) log → Origin d a

  -- In this state the broker adopted the offer, and a record on its disk has the refresh token then.
  abbrev pub Held : Dict Value → Broker → Type 0
  Held d s =
      (v : Verdict) × ((handle_offer env (request_of d) s).0 ≡ answered v)
      × (v.adopted ≡ true)
      × (r : Record) × (lookup r.name (handle_offer env (request_of d) s).1.store.disk ≡ some r)
      × (refresh_token r ≡ text_at d "refreshToken")

  -- In this state the broker answered that the token is its own, or one that it had before, or one
  -- that upstream rejects while its own is attested live.
  abbrev pub Superseded : Dict Value → Bool → Broker → Type 0
  Superseded d live s =
      (v : Verdict) × ((handle_offer env (request_of d) s).0 ≡ answered v)
      × ((v.reason ≡ already_current)
          ⊎ (v.reason ≡ rollback)
          ⊎ ((v.reason ≡ offer_not_live) × (live ≡ true)))

  -- What became of the offered token, by where the answer to the offer comes from.
  abbrev pub Kept : (d : Dict Value) (a : Answer) (live : Bool) → Origin d a → Type 0
  Kept d a live (inl gone) = ⊥
  Kept d a live (inr (s, e)) = Held d s ⊎ Superseded d live s
