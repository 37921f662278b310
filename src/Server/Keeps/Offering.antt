-- ===== src/Server/Keeps/Offering.antt =====
-- Offers (Server/Offer.antt) keep what `Guards` guards.
use ccbroker.Base.{ℕ, String, Bool, List, Dict}
use ccbroker.Json.{Value}
use ccbroker.Creds.{Record, access_token}
use ccbroker.Config.{Client}
use ccbroker.Anthropic.{FetchError, Fetched, fetched, failed}
use ccbroker.Server.State.{RateEntry, Env, modify}
use ccbroker.Server.Access.{set_rate, rate_limit_offer}
use ccbroker.Server.Route.{Routed, matched, ambiguous_account, unknown_account}
use ccbroker.Server.Offer.{
  replacement, Evidence, adopt, decide, offer_to, offer_routed, offer_identified, offer_failed,
  offer_verified, attempt, offer_again, offer_oauth, Parsed, parsed, offer_parsed, OfferRequest,
  offer_as, handle_offer,
}
use ccbroker.Server.Keeps.{
  Keeps, Shared, Holds, Guards, guard_rules, Keeps-modify, Keeps-bind, Keeps-commit, Keeps-now,
}

module _ {env : Env} {Q : Shared} {G : List String → Type 0} (k : Guards env Q G) where
  adopt-Keeps :
      (name : String) (e : Evidence) (cur : Record)
      → G cur.retired_hashes
      → Keeps (Holds Q) (adopt env name e cur)
  unfolding adopt replacement
  adopt-Keeps name e cur h = Keeps-bind _ _ (Keeps-now k) λ since.
      Keeps-bind _ _
        (Keeps-commit k (replacement env e cur since)
          (k.retire _ (env.sha256hex (access_token cur)) h))
        (λ w. search guard_rules)

  decide-Keeps :
      (first : Bool) (e : Evidence) (r cur : Record)
      → G cur.retired_hashes
      → Keeps (Holds Q) (decide env first e r cur)
  unfolding decide
  decide-Keeps first e r cur h = search (guard_rules, adopt-Keeps) depth 14

  offer_to-Keeps :
      (first : Bool) (e : Evidence) (r : Record) → Keeps (Holds Q) (offer_to env first e r)
  unfolding offer_to
  offer_to-Keeps first e r = search (guard_rules, decide-Keeps) depth 14

  routed-Keeps :
      (first : Bool) (e : Evidence) (r : Routed) → Keeps (Holds Q) (offer_routed env first e r)
  unfolding offer_routed
  routed-Keeps first e ambiguous_account = search guard_rules
  routed-Keeps first e unknown_account = search guard_rules
  routed-Keeps first e (matched r) = offer_to-Keeps first e r

  identified-Keeps : (first : Bool) (e : Evidence) → Keeps (Holds Q) (offer_identified env first e)
  unfolding offer_identified
  identified-Keeps first e = search (guard_rules, routed-Keeps) depth 14

  failed-Keeps : (oauth : Dict Value) (e : FetchError) → Keeps (Holds Q) (offer_failed env oauth e)
  unfolding offer_failed
  failed-Keeps oauth e = search guard_rules depth 14

  verified-Keeps :
      (first : Bool) (v : ℕ) (oauth : Dict Value) (f : Fetched (Dict Value))
      → Keeps (Holds Q) (offer_verified env first v oauth f)
  unfolding offer_verified
  verified-Keeps first v oauth (failed e) = failed-Keeps oauth e
  verified-Keeps first v oauth (fetched acct) = identified-Keeps first _

  attempt-Keeps : (first : Bool) (oauth : Dict Value) → Keeps (Holds Q) (attempt env first oauth)
  unfolding attempt
  attempt-Keeps first oauth = search (guard_rules, verified-Keeps) depth 14

  offer_oauth-Keeps : (oauth : Dict Value) → Keeps (Holds Q) (offer_oauth env oauth)
  unfolding offer_oauth offer_again
  offer_oauth-Keeps oauth = search (guard_rules, attempt-Keeps) depth 14

  parsed-Keeps : (p : Parsed) → Keeps (Holds Q) (offer_parsed env p)
  unfolding offer_parsed
  parsed-Keeps (parsed oauth) = offer_oauth-Keeps oauth
  parsed-Keeps _ = search guard_rules

  rate_set : (client : String) (e : RateEntry) → Keeps (Holds Q) (modify (set_rate client e))
  unfolding set_rate
  rate_set client e = Keeps-modify _ (λ s h. h)

  rate_limit-Keeps : (client : String) → Keeps (Holds Q) (rate_limit_offer env client)
  unfolding rate_limit_offer
  rate_limit-Keeps client = search (guard_rules, rate_set) depth 14

  offer_as-Keeps : (req : OfferRequest) (c : Client) → Keeps (Holds Q) (offer_as env req c)
  unfolding offer_as
  offer_as-Keeps req c = search (guard_rules, rate_limit-Keeps, parsed-Keeps) depth 14

  pub handle_offer-Keeps : (req : OfferRequest) → Keeps (Holds Q) (handle_offer env req)
  unfolding handle_offer
  handle_offer-Keeps req = search (guard_rules, offer_as-Keeps) depth 14
