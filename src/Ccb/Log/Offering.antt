-- ===== src/Ccb/Log/Offering.antt =====
-- What the log shows once the local credential was offered, and once an envelope was fetched.
use ccbroker.Base.{
  String, ◌≡◌, refl, Bool, true, Option, none, some, List, ◌∷◌, Dict, Ends, Ends-pure, Ends-if,
  Ends-bind, arith,
}
use mathlib.Core.List.{Memᴰ}
use ccbroker.Json.{Value}
use ccbroker.Ccb.State.{World, Event, Answer, Request, call, offer, get_credential, http, elapse}
use ccbroker.Ccb.Broker.{
  OfferResult, Envelope, offer_result, envelope_of, offer_cred, get_cred_envelope,
}
use ccbroker.Ccb.Local.{oauth_str}
use ccbroker.Ccb.Sync.{has_rt, offer_local}
use ccbroker.Ccb.Log.{Justified}

-- A local credential with a refresh token was offered, with this result.
abbrev pub Offered : Option (Dict Value) → OfferResult → List Event → Type 0
Offered local res log =
    has_rt local ≡ true
    → (d : Dict Value) × (a : Answer) × (local ≡ some d)
      × Memᴰ (call (offer d) a) log
      × (offer_result a ≡ res)

abbrev pub Fetched : String → Bool → Option Envelope → List Event → Type 0
Fetched name probe env log =
    (a : Answer) × Memᴰ (call (get_credential name probe) a) log × (envelope_of a ≡ env)

pub Offered-later :
    (local : Option (Dict Value)) (res : OfferResult) (e : Event) (log : List Event)
    → Offered local res log
    → Offered local res (e ∷ log)
Offered-later local res e log o h = let (d, a, same, m, r) = o h in (d, a, same, Memᴰ.tail m, r)

not-has_rt : has_rt none ≡ true → ⊥
unfolding has_rt oauth_str
not-has_rt h = ground arith

module _ (w : World) where
  -- A call and its answer are logged.
  pub Ends-http :
      (Q : Answer → List Event → Type 0) (P : List Event → Type 0) (req : Request)
      → ((a : Answer) (log : List Event) → P log → Q a (call req a ∷ log))
      → Ends (λ s. P s.log) (http w req) (λ a s. Q a s.log)
  unfolding http elapse
  Ends-http Q P req h = record { at = λ s p. h (w.answer s.asked req) s.log p }

  Ends-offer_cred :
      (d : Dict Value)
      → Ends
          (λ s. Justified s.log)
          (offer_cred w d)
          (λ res s. Justified s.log × Offered (some d) res s.log)
  unfolding offer_cred
  Ends-offer_cred d =
      Ends-bind _ _
        (Ends-http (λ a log. Justified log × Memᴰ (call (offer d) a) log) Justified (offer d)
          (λ a log j. (j, Memᴰ.head refl)))
        (λ a. Ends-pure (offer_result a) (λ s (j, m). (j, λ h. (d, a, refl, m, refl))))

  pub Ends-offer_local :
      (local : Option (Dict Value))
      → Ends
          (λ s. Justified s.log)
          (offer_local w local)
          (λ res s. Justified s.log × Offered local res s.log)
  unfolding offer_local
  Ends-offer_local none = Ends-pure _ (λ s j. (j, λ h. absurd (not-has_rt h)))
  Ends-offer_local (some d) =
      Ends-if (has_rt (some d)) _ _ (λ yes. Ends-offer_cred d)
        (λ no. Ends-pure _ (λ s j. (j, λ h. absurd (ground arith))))

  -- An envelope is fetched, and what held of the log, if it holds with more calls, still does.
  pub Ends-get_cred_envelope :
      (P : List Event → Type 0) (name : String) (probe : Bool)
      → ((a : Answer) (log : List Event) → P log → P (call (get_credential name probe) a ∷ log))
      → Ends
          (λ s. P s.log)
          (get_cred_envelope w name probe)
          (λ env s. P s.log × Fetched name probe env s.log)
  unfolding get_cred_envelope
  Ends-get_cred_envelope P name probe h =
      Ends-bind _ _
        (Ends-http (λ a log. P log × Memᴰ (call (get_credential name probe) a) log) P
          (get_credential name probe) (λ a log p. (h a log p, Memᴰ.head refl)))
        (λ a. Ends-pure (envelope_of a) (λ s (p, m). (p, (a, m, refl))))
