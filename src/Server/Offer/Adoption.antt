-- ===== src/Server/Offer/Adoption.antt =====
-- What an offer must pass to be adopted (handleOffer).
use ccbroker.Base.{
  ◌≡◌, ◌≢◌, Bool, true, false, Option, none, some, eq_iff, arith, refl, Dict, Bool-cases, inl, inr,
  not, if◌then◌else◌,
}
use ccbroker.Json.{Value, text_at}
use ccbroker.Creds.{Record}
use ccbroker.Anthropic.{Fetched, fetched, failed, fetch_profile, get_profile, FetchError}
use ccbroker.Store
use ccbroker.Server.State.{
  Broker, Env, M, pure, gets, draw, ◌>>=◌, when◌then◌else◌, match_option, now, upstream, lock,
}
use ccbroker.Server.Gen.{with_record, stored}
use ccbroker.Server.Ring.{contains_str}
use ccbroker.Server.Route.{Routed, matched, ambiguous_account, unknown_account, route_by_account}
use ccbroker.Server.Offer.{
  Evidence, OfferReply, answered, hash_of, decide, offer_to, offer_routed, offer_identified,
  offer_failed, offer_verified, attempt,
}

-- The answer says that the offer was adopted.
abbrev pub says_adopted : Option OfferReply → Bool
says_adopted (some (answered v)) = v.adopted
says_adopted _ = false

module _ (env : Env) where
  -- What the mutex guards is what was verified, and the token is another one.
  abbrev pub Unchanged : Evidence → Record → Record → Broker → Type 0
  Unchanged e match cur s =
      (cur.gen ≡ match.gen) × (s.store_ver ≡ e.version) × (hash_of env cur ≢ e.hash)

  decide-Adopts :
      (first : Bool) (e : Evidence) (match cur : Record) (s : Broker)
      → says_adopted (decide env first e match cur s).0 ≡ true
      → Unchanged e match cur s
  unfolding decide ◌>>=◌ gets when◌then◌else◌ pure
  decide-Adopts first e match cur s h = ground (arith, eq_iff (hash_of env cur) e.hash)

  -- The state in which the mutex is held.
  abbrev pub locked : Broker → Broker
  locked s = (lock env s).1

  guarded-Adopts :
      (b : Bool) (m : OfferReply) (n : M (Option OfferReply)) (s : Broker)
      → says_adopted (some m) ≡ false
      → says_adopted ((when not b then pure (some m) else n) s).0 ≡ true
      → (b ≡ true) × (says_adopted (n s).0 ≡ true)
  unfolding when◌then◌else◌ pure
  guarded-Adopts true m n s k h = (refl, h)
  guarded-Adopts false m n s k h = ground arith

  no_record-Adopts :
      (o : Option Record) (m : OfferReply) (f : Record → M (Option OfferReply)) (s : Broker)
      → says_adopted (some m) ≡ false
      → says_adopted (match_option o (pure (some m)) f s).0 ≡ true
      → (cur : Record) × (o ≡ some cur) × (says_adopted (f cur s).0 ≡ true)
  unfolding match_option pure
  no_record-Adopts none m f s n h = ground arith
  no_record-Adopts (some cur) m f s n h = (cur, refl, h)

  offer_to-passes :
      (first : Bool) (e : Evidence) (match : Record) (s : Broker)
      → says_adopted (offer_to env first e match s).0 ≡ true
      → (contains_str match.retired_hashes e.hash ≡ false)
        × (cur : Record) × (Store.get match.name (locked s).store ≡ some cur)
        × (says_adopted (decide env first e match cur (locked s)).0 ≡ true)
  unfolding offer_to ◌>>=◌ when◌then◌else◌ pure with_record stored gets
  offer_to-passes first e match s h = elim (Bool-cases (contains_str match.retired_hashes e.hash)) [
    | inl p ↦ absurd (ground arith)
    | inr p ↦
        let (cur, found, h') =
          no_record-Adopts (Store.get match.name (locked s).store) _ (decide env first e match)
            (locked s) refl (rw p at h) in
        (p, cur, found, h')
  ]

  -- The record that the offer is routed to, which is not to have retired the token, and the one
  -- that the mutex guards.
  abbrev pub Passes : Evidence → Record → Broker → Type 0
  Passes e match s =
      (contains_str match.retired_hashes e.hash ≡ false)
      × (cur : Record) × (Store.get match.name (locked s).store ≡ some cur)
      × Unchanged e match cur (locked s)

  offer_to-Adopts :
      (first : Bool) (e : Evidence) (match : Record) (s : Broker)
      → says_adopted (offer_to env first e match s).0 ≡ true
      → Passes e match s
  offer_to-Adopts first e match s h =
      let (fresh, cur, found, h') = offer_to-passes first e match s h in
      (fresh, cur, found, decide-Adopts first e match cur (locked s) h')

  offer_routed-Adopts :
      (first : Bool) (e : Evidence) (to : Routed) (s : Broker)
      → says_adopted (offer_routed env first e to s).0 ≡ true
      → (match : Record) × (to ≡ matched match) × Passes e match s
  unfolding offer_routed pure
  offer_routed-Adopts first e (matched r) s h = (r, refl, offer_to-Adopts first e r s h)
  offer_routed-Adopts first e ambiguous_account s h = ground arith
  offer_routed-Adopts first e unknown_account s h = ground arith

  -- The routing, over the records of the store at that moment, and after the migration.
  abbrev pub RoutedTo : Evidence → Broker → Type 0
  RoutedTo e s =
      (s.migrated ≡ true)
      × (match : Record) × (route_by_account e.uuid e.email (Store.list s.store) ≡ matched match)
      × Passes e match s

  offer_identified-Adopts :
      (first : Bool) (e : Evidence) (s : Broker)
      → says_adopted (offer_identified env first e s).0 ≡ true
      → RoutedTo e s
  unfolding offer_identified ◌>>=◌ gets
  offer_identified-Adopts first e s h =
      let (done, h') =
        guarded-Adopts s.migrated _
          (offer_routed env first e (route_by_account e.uuid e.email (Store.list s.store))) s refl
          h in
      let (match, routed, passes) = offer_routed-Adopts first e _ s h' in
      (done, match, routed, passes)

  offer_failed-Adopts :
      (oauth : Dict Value) (err : FetchError) (s : Broker)
      → says_adopted (offer_failed env oauth err s).0 ≡ false
  unfolding offer_failed ◌>>=◌ when◌then◌else◌ pure now draw
  offer_failed-Adopts oauth err s = ground arith

  -- The state after the profile was fetched, and what was fetched.
  abbrev pub fetched_at : Dict Value → Broker → Broker × Fetched (Dict Value)
  fetched_at oauth s =
      let (t, s1) = now env s in
      let (a, s2) = upstream env none (get_profile (text_at oauth "accessToken")) s1 in
      (s2, fetch_profile t a)

  abbrev pub evidence : Dict Value → Broker → Dict Value → Evidence
  evidence oauth s acct = record {
    version = s.store_ver;
    oauth = oauth;
    hash = env.sha256hex (text_at oauth "accessToken");
    email = text_at acct "emailAddress";
    uuid = text_at acct "accountUuid";
  }

  offer_verified-Adopts :
      (first : Bool) (oauth : Dict Value) (s : Broker) (f : Fetched (Dict Value)) (s' : Broker)
      → says_adopted (offer_verified env first s.store_ver oauth f s').0 ≡ true
      → (acct : Dict Value) × (f ≡ fetched acct) × RoutedTo (evidence oauth s acct) s'
  unfolding offer_verified
  offer_verified-Adopts first oauth s (failed err) s' h =
      absurd (ground (arith, offer_failed-Adopts oauth err s'))
  offer_verified-Adopts first oauth s (fetched acct) s' h =
      (acct, refl, offer_identified-Adopts first (evidence oauth s acct) s' h)

  -- An attempt adopts an offer only if the profile endpoint accepted the offered token, the
  -- migration is done, the profile's account routes to one record whose ring does not have the
  -- token, and, with the mutex held, that record has the same generation, the store the version
  -- that it had before the verification, and the record another token than the offered one. The
  -- other goroutines may do anything at the verification and at the mutex.
  pub attempt-Adopts :
      (first : Bool) (oauth : Dict Value) (s : Broker)
      → says_adopted (attempt env first oauth s).0 ≡ true
      → (acct : Dict Value) × ((fetched_at oauth s).1 ≡ fetched acct)
        × RoutedTo (evidence oauth s acct) (fetched_at oauth s).0
  unfolding attempt ◌>>=◌ gets
  attempt-Adopts first oauth s h =
      offer_verified-Adopts first oauth s (fetched_at oauth s).1 (fetched_at oauth s).0 h
