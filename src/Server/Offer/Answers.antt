-- ===== src/Server/Offer/Answers.antt =====
-- What the loop of handleOffer answers, and what it reads of an offered object (oauthApparentAge).
use ccbroker.Base.{
  ℕ, ◌≡◌, ◌≢◌, Bool, true, false, Option, none, some, arith, ℤ, pos, ◌≤ℤ◌, ◌-ℤ◌, pos_part, neg_part,
  -ℤ_parts, lookup, Dict, ◌+◌, refl,
}
use ccbroker.Json.{Value}
use ccbroker.Creds.{Record, millis}
use ccbroker.Anthropic.{Fetched, fetched, failed, FetchError}
use ccbroker.Server.State.{Broker, Env, M, pure, gets, ◌>>=◌, when◌then◌else◌, match_option, lock}
use ccbroker.Server.Gen.{with_record, stored}
use ccbroker.Server.Route.{Routed, matched, ambiguous_account, unknown_account}
use ccbroker.Config.{Client}
use ccbroker.Server.Access.{auth_client, rate_limit_offer}
use ccbroker.Server.Offer.{
  Evidence, OfferReply, OfferRequest, no_answer, adopt, decide, offer_to, offer_routed,
  offer_identified, offer_failed, offer_verified, attempt, offer_again, offer_oauth, Parsed, parsed,
  offer_parsed, offer_as, handle_offer, apparent_age, token_lifetime, max_age, parse_oauth,
}

-- A reply that is an answer; only a first attempt may give none.
abbrev pub settles : Bool → Option OfferReply → Bool
settles first none = first
settles first (some no_answer) = false
settles first (some _) = true

module _ (env : Env) where
  adopt-settles :
      (first : Bool) (e : Evidence) (match cur : Record) (s : Broker)
      → settles first (adopt env match.name e cur s).0 ≡ true
  unfolding adopt ◌>>=◌ when◌then◌else◌ pure
  adopt-settles first e match cur s = ground arith

  decide-settles :
      (first : Bool) (e : Evidence) (match cur : Record) (s : Broker)
      → settles first (decide env first e match cur s).0 ≡ true
  unfolding decide ◌>>=◌ gets when◌then◌else◌ pure
  decide-settles first e match cur s = ground (arith, adopt-settles first e match cur s)

  settles-match :
      (first : Bool) (o : Option Record) (m : OfferReply) (f : Record → M (Option OfferReply))
      (s : Broker)
      → settles first (some m) ≡ true
      → ((r : Record) → settles first (f r s).0 ≡ true)
      → settles first (match_option o (pure (some m)) f s).0 ≡ true
  unfolding match_option pure
  settles-match first none m f s h k = h
  settles-match first (some r) m f s h k = k r

  settles-if :
      (first b : Bool) (m n : M (Option OfferReply)) (s : Broker)
      → settles first (m s).0 ≡ true
      → settles first (n s).0 ≡ true
      → settles first ((when b then m else n) s).0 ≡ true
  unfolding when◌then◌else◌
  settles-if first true m n s h k = h
  settles-if first false m n s h k = k

  offer_to-settles :
      (first : Bool) (e : Evidence) (match : Record) (s : Broker)
      → settles first (offer_to env first e match s).0 ≡ true
  unfolding offer_to ◌>>=◌ pure with_record stored gets
  offer_to-settles first e match s = settles-if first _ _ _ s refl (
      settles-match first _ _ (decide env first e match) (lock env s).1 refl
        (λ r. decide-settles first e match r (lock env s).1))

  offer_routed-settles :
      (first : Bool) (e : Evidence) (to : Routed) (s : Broker)
      → settles first (offer_routed env first e to s).0 ≡ true
  unfolding offer_routed pure
  offer_routed-settles first e (matched r) s = offer_to-settles first e r s
  offer_routed-settles first e ambiguous_account s = refl
  offer_routed-settles first e unknown_account s = refl

  offer_identified-settles :
      (first : Bool) (e : Evidence) (s : Broker)
      → settles first (offer_identified env first e s).0 ≡ true
  unfolding offer_identified ◌>>=◌ pure gets
  offer_identified-settles first e s =
      settles-if first _ _ _ s refl (offer_routed-settles first e _ s)

  offer_failed-settles :
      (first : Bool) (oauth : Dict Value) (err : FetchError) (s : Broker)
      → settles first (offer_failed env oauth err s).0 ≡ true
  unfolding offer_failed ◌>>=◌ when◌then◌else◌ pure
  offer_failed-settles first oauth err s = ground arith

  offer_verified-settles :
      (first : Bool) (v : ℕ) (oauth : Dict Value) (f : Fetched (Dict Value)) (s : Broker)
      → settles first (offer_verified env first v oauth f s).0 ≡ true
  unfolding offer_verified
  offer_verified-settles first v oauth (failed err) s = offer_failed-settles first oauth err s
  offer_verified-settles first v oauth (fetched acct) s = offer_identified-settles first _ s

  -- An attempt answers, but that the first one may ask for a second.
  pub attempt-settles :
      (first : Bool) (oauth : Dict Value) (s : Broker)
      → settles first (attempt env first oauth s).0 ≡ true
  unfolding attempt ◌>>=◌ gets
  attempt-settles first oauth s = offer_verified-settles first _ oauth _ _

  again-answers : (oauth : Dict Value) (s : Broker) → (offer_again env oauth s).0 ≢ no_answer
  unfolding offer_again ◌>>=◌ match_option pure
  again-answers oauth s h = ground (arith, attempt-settles false oauth s)

  oauth-answers : (oauth : Dict Value) (s : Broker) → (offer_oauth env oauth s).0 ≢ no_answer
  unfolding offer_oauth ◌>>=◌ match_option pure when◌then◌else◌
  oauth-answers oauth s h =
      ground (arith, attempt-settles true oauth s, again-answers oauth (attempt env true oauth s).1)

  parsed-answers : (p : Parsed) (s : Broker) → (offer_parsed env p s).0 ≢ no_answer
  unfolding offer_parsed pure
  parsed-answers (parsed oauth) s h = oauth-answers oauth s h
  parsed-answers _ s h = ground arith

  client-answers :
      (req : OfferRequest) (c : Client) (s : Broker) → (offer_as env req c s).0 ≢ no_answer
  unfolding offer_as ◌>>=◌ when◌then◌else◌ pure
  client-answers req c s h =
      ground (arith, parsed-answers (parse_oauth req.body) (rate_limit_offer env c.name s).1)

  -- Every offer is answered: the loop does not end without one, whatever the clock, the disk, the
  -- upstream API and the other goroutines do.
  pub handle_offer-answers :
      (req : OfferRequest) (s : Broker) → (handle_offer env req s).0 ≢ no_answer
  unfolding handle_offer match_option pure
  handle_offer-answers req s = of_client (auth_client env req.authorization)
    where
      of_client :
          (c : Option Client)
          → (match_option c (pure OfferReply.unauthorized) (offer_as env req) s).0 ≢ no_answer
      of_client none h = ground arith
      of_client (some c) h = client-answers req c s h

-- The age that is inferred for an offered token lies between nothing and nine hours, and is the age
-- of a token that lives eight hours and expires when the object says.
pub apparent_age-bounds :
    (oauth : Dict Value) (t : ℕ) (age : ℤ)
    → apparent_age oauth t ≡ some age
    → (pos 0 ≤ℤ age)
      × (age ≤ℤ pos max_age)
      × (pos_part age + pos_part (millis (lookup "expiresAt" oauth))
          ≡ t + token_lifetime + neg_part age)
unfolding apparent_age
apparent_age-bounds oauth t age h =
    let exp = millis (lookup "expiresAt" oauth) in
    let start = exp -ℤ pos token_lifetime in
    ground (arith, -ℤ_parts exp (pos token_lifetime), -ℤ_parts (pos t) start)
