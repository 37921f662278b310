-- ===== src/Server/Offer/Rollback.antt =====
-- The token that an adopted offer or a refresh displaces, and what takes its place (handleOffer,
-- doRefresh).
use ccbroker.Base.{
  String, ◌<◌, ◌≡◌, refl, ◌≢◌, true, false, Bool, some, arith, sym, ap, ◌∙◌, eq_iff, List, [],
  if◌then◌else◌,
}
use ccbroker.Creds.{Record, ok, health}
use ccbroker.Anthropic.{Grant}
use ccbroker.Store
use ccbroker.Server.State.{Broker, Env, pure, draw, modify, ◌>>=◌, when◌then◌else◌, now}
use ccbroker.Server.Gen.{commit, gen_of}
use ccbroker.Server.Gen.Commit.{written, get-commit, ring-written, gen-commit, written_fields}
use ccbroker.Server.Ring.{retire_hash, contains_str}
use ccbroker.Server.Ring.Recent.{contains_str-retire_all}
use ccbroker.Server.Refresh.{first_nonempty, apply_refresh, refresh_granted, clear_backoff}
use ccbroker.Server.Offer.{Evidence, hash_of, replacement, adopt, offer_to, rollback, turned_down}

module _ (env : Env) where
  -- The record under its own name after a commit.
  pub stored-commit :
      (nr : Record) (s : Broker)
      → Store.get nr.name (commit env nr s).1.store ≡ some (written env nr s)
  stored-commit nr s = ground (arith, get-commit env nr s nr.name, eq_iff nr.name nr.name)

  -- An offer of a token whose hash the record has retired is answered as a rollback.
  retired-rollback :
      (first : Bool) (e : Evidence) (r : Record) (s : Broker)
      → contains_str r.retired_hashes e.hash ≡ true
      → (offer_to env first e r s).0 ≡ some (turned_down r.name rollback e.email r.gen)
  unfolding offer_to when◌then◌else◌ pure
  retired-rollback first e r s h = ground arith

  -- What a commit of a record with the token retired leaves in the store.
  committed-retires :
      (nr : Record) (s : Broker) (ring : List String) (h : String)
      → nr.retired_hashes ≡ retire_hash ring h
      → h ≢ ""
      → (r : Record) → Store.get nr.name (commit env nr s).1.store ≡ some r
      → contains_str r.retired_hashes h ≡ true
  committed-retires nr s ring h e ne r found =
      let is_r : written env nr s ≡ r = ground (arith, stored-commit nr s) in
      let its_ring : r.retired_hashes ≡ retire_hash ring h =
        sym (ap (λ x. x.retired_hashes) is_r) ∙ ring-written env nr s ∙ e in
      rw its_ring (contains_str-retire_all ring [] h ne (omega arith))

  -- Either branch that only answers leaves the state.
  when-state :
      {A : Type 0} (b : Bool) (x y : A) (s : Broker) → ((when b then pure x else pure y) s).1 ≡ s
  unfolding when◌then◌else◌ pure
  when-state true x y s = refl
  when-state false x y s = refl

  adopt-commit :
      (name : String) (e : Evidence) (cur : Record) (s : Broker)
      → (adopt env name e cur s).1
        ≡ (commit env (replacement env e cur (now env s).0) (now env s).1).1
  unfolding adopt ◌>>=◌
  adopt-commit name e cur s = when-state _ _ _ _

  -- When an offer has been adopted, or its save has failed, an offer of the displaced token
  -- that is routed to the record which this left is answered as a rollback, whatever else the
  -- state is then, if the token's hash is not empty.
  pub adopt-rollback :
      (name : String) (e again : Evidence) (cur r : Record) (s later : Broker) (first : Bool)
      → hash_of env cur ≢ ""
      → again.hash ≡ hash_of env cur
      → Store.get cur.name (adopt env name e cur s).1.store ≡ some r
      → (offer_to env first again r later).0 ≡ some (turned_down r.name rollback again.email r.gen)
  unfolding replacement
  adopt-rollback name e again cur r s later first ne same found =
      retired-rollback first again r later (
        rw same (
          committed-retires (replacement env e cur (now env s).0) (now env s).1 cur.retired_hashes
            (hash_of env cur) refl ne r
            (rw (ap (λ b. b.store) (adopt-commit name e cur s)) at found)))

  -- An adopted offer, or one whose save has failed, stands in memory under the name of the record that
  -- it replaced: with the offered object, healthy, and at a higher generation.
  pub adopt-replaces :
      (name : String) (e : Evidence) (cur r : Record) (s : Broker)
      → Store.get cur.name (adopt env name e cur s).1.store ≡ some r
      → (r.oauth ≡ e.oauth)
        × (health r ≡ ok)
        × (gen_of (Store.get cur.name s.store) < r.gen)
        × (r.account ≡ first_nonempty e.email cur.account)
        × (r.account_uuid ≡ first_nonempty e.uuid cur.account_uuid)
  unfolding replacement now draw health
  adopt-replaces name e cur r s found =
      let nr : Record = replacement env e cur (now env s).0 in
      let now_there : Store.get cur.name (commit env nr (now env s).1).1.store ≡ some r =
        rw (ap (λ b. b.store) (adopt-commit name e cur s)) at found in
      let is_r : written env nr (now env s).1 ≡ r =
        ground (arith, stored-commit nr (now env s).1) in
      let same = sym is_r ∙ written_fields env nr (now env s).1 in
      (
        ap (λ x. x.oauth) same,
        ap (λ x. health x) same,
        rw is_r at (gen-commit env nr (now env s).1),
        ap (λ x. x.account) same,
        ap (λ x. x.account_uuid) same,
      )

  refresh_granted-commit :
      (rec : Record) (g : Grant) (s : Broker)
      → (refresh_granted env rec g s).1.store
        ≡ (commit env (apply_refresh env rec g s).0 (apply_refresh env rec g s).1).1.store
  unfolding refresh_granted ◌>>=◌ when◌then◌else◌ pure modify clear_backoff
  refresh_granted-commit rec g s = ground arith

  -- When a refresh has been granted, an offer of the access token that it replaced, routed to
  -- the record which this left, is answered as a rollback, whatever else the state is then, if
  -- the token's hash is not empty.
  pub refresh-rollback :
      (rec r : Record) (g : Grant) (e : Evidence) (s later : Broker) (first : Bool)
      → hash_of env rec ≢ ""
      → e.hash ≡ hash_of env rec
      → Store.get rec.name (refresh_granted env rec g s).1.store ≡ some r
      → (offer_to env first e r later).0 ≡ some (turned_down r.name rollback e.email r.gen)
  unfolding apply_refresh now draw ◌>>=◌ pure
  refresh-rollback rec r g e s later first ne same found = retired-rollback first e r later (
      rw same (
        committed-retires (apply_refresh env rec g s).0 (apply_refresh env rec g s).1
          rec.retired_hashes (hash_of env rec) refl ne r
          (rw (refresh_granted-commit rec g s) at found)))
