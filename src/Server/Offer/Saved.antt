-- ===== src/Server/Offer/Saved.antt =====
-- What is on disk when an offer is answered as adopted (handleOffer, commit).
use ccbroker.Base.{
  Any, Ends-skip, ℕ, String, ◌≡◌, refl, Bool, true, false, Option, none, some, Dict, lookup,
  lookup-insert_self, arith, Ends, Ends-pure, Ends-if, Ends-bind, Ends-match, Ends-before,
  Ends-after,
}
use ccbroker.Json.{Value}
use ccbroker.Creds.{Record}
use ccbroker.Anthropic.{Fetched, fetched, failed}
use ccbroker.Store
use ccbroker.Server.State.{Broker, Env, M, pure, modify, match_option}
use ccbroker.Server.Gen.{with_record, put, publish, wake, commit}
use ccbroker.Server.Route.{Routed, matched, ambiguous_account, unknown_account}
use ccbroker.Server.Offer.{
  Evidence, OfferReply, OfferRequest, missing_access, no_answer, bad_body, Parsed, parsed,
  invalid_json, empty_object, missing_refresh_token, parse_oauth, replacement, adopt, decide,
  offer_to, offer_routed, offer_identified, offer_failed, offer_verified, attempt, offer_again,
  offer_oauth, offer_parsed, offer_as, handle_offer,
}
use ccbroker.Server.Offer.Adoption.{says_adopted}

-- Some record on disk holds the object.
abbrev pub OnDisk : Dict Value → Broker → Type 0
OnDisk oauth s = (r : Record) × (lookup r.name s.store.disk ≡ some r) × (r.oauth ≡ oauth)

-- If the answer says that the offer was adopted, the offered object is on disk.
abbrev Keeps : Dict Value → Option OfferReply → Broker → Type 0
Keeps oauth reply s = says_adopted reply ≡ true → OnDisk oauth s

Keeps-pure :
    (oauth : Dict Value) (reply : Option OfferReply)
    → says_adopted reply ≡ false
    → Ends Any (pure reply) (Keeps oauth)
Keeps-pure oauth reply h = Ends-pure reply (λ s u k. absurd (ground arith))

module _ (env : Env) where
  Ends-put :
      (r : Record)
      → Ends Any (put env r) (λ done s. done ≡ true → lookup r.name s.store.disk ≡ some r)
  unfolding put Store.put Store.save
  Ends-put r = record { at = λ s u h. ground (arith, lookup-insert_self r.name r s.store.data_map) }

  Ends-publish :
      (r : Record)
      → Ends
          (λ s. lookup r.name s.store.disk ≡ some r)
          (publish env r)
          (λ u s. lookup r.name s.store.disk ≡ some r)
  unfolding publish modify wake
  Ends-publish r = record { at = λ s h. h }

  -- A record that was committed is on disk as it was written.
  Ends-commit :
      (nr : Record)
      → Ends Any (commit env nr) (λ out s.
        out.1 ≡ true → (lookup out.0.name s.store.disk ≡ some out.0) × (out.0.oauth ≡ nr.oauth))
  unfolding commit
  Ends-commit nr = Ends-skip _ _ λ prev. Ends-skip _ _ λ t. Ends-skip _ _ λ updated.
      Ends-bind _ _ (Ends-put _) λ saved.
        Ends-if saved _ _
          (λ e.
            Ends-bind _ _ (Ends-before _ (λ s h. h e) (Ends-publish _))
              (λ u. Ends-pure _ (λ s h k. (h, refl))))
          (λ e. Ends-pure _ (λ s h k. absurd (ground arith)))

  Keeps-adopt :
      (name : String) (e : Evidence) (cur : Record)
      → Ends Any (adopt env name e cur) (Keeps e.oauth)
  unfolding adopt replacement
  Keeps-adopt name e cur = Ends-skip _ _ λ since. Ends-bind _ _ (Ends-commit _) λ written.
      Ends-if written.1 _ _
        (λ yes. Ends-pure _ (λ s h k. let (there, same) = h yes in (written.0, there, same)))
        (λ no. Ends-pure _ (λ s h k. absurd (ground arith)))

  Keeps-decide :
      (first : Bool) (e : Evidence) (match cur : Record)
      → Ends Any (decide env first e match cur) (Keeps e.oauth)
  unfolding decide
  Keeps-decide first e match cur = Ends-skip _ _ λ version.
      Ends-if _ _ _
        (λ p.
          Ends-if first _ _ (λ q. Keeps-pure e.oauth none refl) (λ q. Keeps-pure e.oauth _ refl))
        (λ p. Ends-if _ _ _ (λ q. Keeps-pure e.oauth _ refl) (λ q. Keeps-adopt match.name e cur))

  Keeps-offer_to :
      (first : Bool) (e : Evidence) (match : Record)
      → Ends Any (offer_to env first e match) (Keeps e.oauth)
  unfolding offer_to with_record
  Keeps-offer_to first e match =
      Ends-if _ _ _ (λ p. Keeps-pure e.oauth _ refl)
        λ p. Ends-skip _ _ λ u. Ends-skip _ _ λ found.
          Ends-match found _ _ (λ q. Keeps-pure e.oauth _ refl)
            (λ cur q. Keeps-decide first e match cur)

  Keeps-offer_routed :
      (first : Bool) (e : Evidence) (to : Routed)
      → Ends Any (offer_routed env first e to) (Keeps e.oauth)
  unfolding offer_routed
  Keeps-offer_routed first e (matched r) = Keeps-offer_to first e r
  Keeps-offer_routed first e ambiguous_account = Keeps-pure e.oauth _ refl
  Keeps-offer_routed first e unknown_account = Keeps-pure e.oauth _ refl

  Keeps-offer_verified :
      (first : Bool) (version : ℕ) (oauth : Dict Value) (f : Fetched (Dict Value))
      → Ends Any (offer_verified env first version oauth f) (Keeps oauth)
  unfolding offer_verified offer_failed offer_identified
  Keeps-offer_verified first version oauth (failed err) =
      Ends-if _ _ _
        (λ p.
          Ends-skip _ _
            λ t. Ends-if _ _ _ (λ q. Keeps-pure oauth _ refl) (λ q. Keeps-pure oauth _ refl))
        (λ p. Keeps-pure oauth _ refl)
  Keeps-offer_verified first version oauth (fetched acct) = Ends-skip _ _ λ migrated.
      Ends-skip _ _
        λ recs. Ends-if _ _ _ (λ p. Keeps-pure oauth _ refl) (λ p. Keeps-offer_routed first _ _)

  Keeps-attempt :
      (first : Bool) (oauth : Dict Value) → Ends Any (attempt env first oauth) (Keeps oauth)
  unfolding attempt
  Keeps-attempt first oauth =
      Ends-skip _ _ λ version.
        Ends-skip _ _ λ t. Ends-skip _ _ (λ a. Keeps-offer_verified first version oauth _)

  -- The last answer of the loop.
  Keeps-settled :
      (oauth : Dict Value) (got : Option OfferReply) (m : M OfferReply)
      → Ends Any m (λ reply s. Keeps oauth (some reply) s)
      → Ends (Keeps oauth got) (match_option got m pure) (λ reply s. Keeps oauth (some reply) s)
  unfolding match_option
  Keeps-settled oauth none m k = Ends-before m (λ s h. tt) k
  Keeps-settled oauth (some reply) m k = Ends-pure reply (λ s h. h)

  Keeps-offer_oauth :
      (oauth : Dict Value)
      → Ends Any (offer_oauth env oauth) (λ reply s. Keeps oauth (some reply) s)
  unfolding offer_oauth offer_again
  Keeps-offer_oauth oauth =
      Ends-if _ _ _ (λ p. Ends-pure missing_access (λ s u k. absurd (ground arith)))
        λ p. Ends-bind _ _ (Keeps-attempt true oauth) λ one. Keeps-settled oauth one _ (
          Ends-bind _ _ (Keeps-attempt false oauth)
            λ two. Keeps-settled oauth two _ (Ends-pure no_answer (λ s u k. absurd (ground arith))))

  -- The body had a credential object, which is on disk if it was adopted.
  Settled : Option Value → OfferReply → Broker → Type 0
  Settled body reply s =
      says_adopted (some reply) ≡ true
      → (oauth : Dict Value) × (parse_oauth body ≡ parsed oauth) × OnDisk oauth s

  Settled-refused :
      (body : Option Value) (reply : OfferReply)
      → says_adopted (some reply) ≡ false
      → Ends Any (pure reply) (Settled body)
  unfolding Settled
  Settled-refused body reply h = Ends-pure reply (λ s u k. absurd (ground arith))

  Settled-parsed :
      (body : Option Value) (p : Parsed)
      → parse_oauth body ≡ p
      → Ends Any (offer_parsed env p) (Settled body)
  unfolding offer_parsed Settled
  Settled-parsed body (parsed oauth) e =
      Ends-after _ (λ reply s k h. (oauth, e, k h)) (Keeps-offer_oauth oauth)
  Settled-parsed body invalid_json e = Settled-refused body bad_body refl
  Settled-parsed body empty_object e = Settled-refused body bad_body refl
  Settled-parsed body missing_refresh_token e = Settled-refused body bad_body refl

  Settled-handle_offer : (req : OfferRequest) → Ends Any (handle_offer env req) (Settled req.body)
  unfolding handle_offer offer_as
  Settled-handle_offer req =
      Ends-match _ _ _ (λ e. Settled-refused req.body _ refl)
        λ client e.
          Ends-if _ _ _ (λ p. Settled-refused req.body _ refl)
            λ p. Ends-skip _ _ λ passes.
              Ends-if passes _ _ (λ q. Settled-parsed req.body _ refl)
                (λ q. Settled-refused req.body _ refl)

  -- If handleOffer answers that the offer was adopted, the body had a credential object, and when
  -- the answer is given a record with that object, refresh token included, is on the broker's disk,
  -- whatever the clock, the disk, the upstream API and the other goroutines do.
  pub handle_offer-OnDisk :
      (req : OfferRequest) (s : Broker)
      → says_adopted (some (handle_offer env req s).0) ≡ true
      → (oauth : Dict Value) × (parse_oauth req.body ≡ parsed oauth)
        × OnDisk oauth (handle_offer env req s).1
  unfolding Settled
  handle_offer-OnDisk req s h = (Settled-handle_offer req).at s tt h
