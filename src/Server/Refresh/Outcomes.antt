-- ===== src/Server/Refresh/Outcomes.antt =====
-- What a refresh asks of the upstream API, and what it leaves (refreshDue, ensureFresh, doRefresh).
use ccbroker.Base.{
  suc, ◌+◌, ◌<◌, ◌≡◌, ap, true, false, not, ◌&&◌, some, ◌∷◌, arith, lookup, lookup-insert_self,
  if◌then◌else◌, eq_iff,
}
use ccbroker.Creds.{Record, dead, refresh_token, health}
use ccbroker.Anthropic.{refresh_grant, Grant, RefreshError, Refreshed, granted, refused}
use ccbroker.Store
use ccbroker.Server.State.{
  Broker, Env, pure, gets, draw, modify, ◌>>=◌, when◌then◌else◌, now, wall_now, upstream,
}
use ccbroker.Server.Gen.{commit, gen_of}
use ccbroker.Server.Gen.Commit.{sent-commit, written, get-commit, gen-commit, written_fields}
use ccbroker.Server.Refresh.{
  transient_backoff, set_backoff, clear_backoff, is_ok, backing_off, needs_refresh, leave_alone,
  mark_dead, apply_refresh, refresh_refused, refresh_granted, refresh_answered, do_refresh,
  refresh_locked,
}

module _ (env : Env) where
  sent-refused :
      (rec : Record) (e : RefreshError) (s : Broker) → (refresh_refused env rec e s).1.sent ≡ s.sent
  unfolding refresh_refused mark_dead now wall_now ◌>>=◌ draw modify pure when◌then◌else◌
      set_backoff
  sent-refused rec e s =
      ground (arith, sent-commit env (mark_dead env rec e s).0 (mark_dead env rec e s).1)

  sent-granted :
      (rec : Record) (g : Grant) (s : Broker) → (refresh_granted env rec g s).1.sent ≡ s.sent
  unfolding refresh_granted ◌>>=◌ modify pure when◌then◌else◌ clear_backoff apply_refresh now draw
  sent-granted rec g s =
      ground (arith, sent-commit env (apply_refresh env rec g s).0 (apply_refresh env rec g s).1)

  sent-answered :
      (rec : Record) (r : Refreshed) (s : Broker) → (refresh_answered env rec r s).1.sent ≡ s.sent
  unfolding refresh_answered
  sent-answered rec (refused e) s = sent-refused rec e s
  sent-answered rec (granted g) s = sent-granted rec g s

  do_refresh-sent :
      (rec : Record) (s : Broker)
      → (do_refresh env rec s).1.sent ≡ refresh_grant (refresh_token rec) ∷ s.sent
  unfolding do_refresh ◌>>=◌ upstream
  do_refresh-sent rec s = sent-answered rec _ _

  -- Under the mutex, exactly one refresh request is sent, with the refresh token of the record, if the
  -- record is healthy, near its expiry and not in a backoff; otherwise none is.
  pub refresh_locked-sent :
      (rec : Record) (s : Broker)
      → (refresh_locked env rec s).1.sent ≡ (
          if is_ok rec
            && needs_refresh env (env.clock s.asked) rec
            && not (backing_off (env.wall (suc s.asked)) (lookup rec.name s.backoff))
          then refresh_grant (refresh_token rec) ∷ s.sent
          else s.sent)
  unfolding refresh_locked leave_alone ◌>>=◌ when◌then◌else◌ pure gets now wall_now draw
  refresh_locked-sent rec s =
      ground (arith, do_refresh-sent rec (record s { asked = suc (suc s.asked) }))

  -- What a write of `nr` leaves under its name.
  fields-commit :
      (nr r : Record) (s : Broker)
      → Store.get nr.name (commit env nr s).1.store ≡ some r
      → (r ≡ record nr { gen = r.gen; updated_at = r.updated_at })
        × (gen_of (Store.get nr.name s.store) < r.gen)
  fields-commit nr r s found =
      let is_r : written env nr s ≡ r =
        ground (arith, get-commit env nr s nr.name, eq_iff nr.name nr.name) in
      (rw is_r at (written_fields env nr s), rw is_r at (gen-commit env nr s))

  -- A permanent refusal leaves the record dead, at a higher generation, with its tokens.
  pub refused-permanent :
      (rec r : Record) (e : RefreshError) (s : Broker)
      → e.permanent ≡ true
      → Store.get rec.name (refresh_refused env rec e s).1.store ≡ some r
      → (health r ≡ dead) × (r.oauth ≡ rec.oauth) × (gen_of (Store.get rec.name s.store) < r.gen)
  unfolding refresh_refused mark_dead now ◌>>=◌ draw pure when◌then◌else◌ health
  refused-permanent rec r e s p found =
      let (same, above) =
        fields-commit (mark_dead env rec e s).0 r (mark_dead env rec e s).1 (ground arith) in
      (ap (λ x. health x) same, ap (λ x. x.oauth) same, above)

  -- A refusal that may pass writes no record, and keeps the credential from being refreshed for a
  -- minute of the wall clock.
  pub refused-transient :
      (rec : Record) (e : RefreshError) (s : Broker)
      → e.permanent ≡ false
      → ((refresh_refused env rec e s).1.store ≡ s.store)
        × (lookup rec.name (refresh_refused env rec e s).1.backoff
            ≡ some (env.wall s.asked + transient_backoff))
  unfolding refresh_refused wall_now ◌>>=◌ draw modify pure when◌then◌else◌ set_backoff
  refused-transient rec e s p = (
    ground arith,
    ground (arith, lookup-insert_self rec.name (env.wall s.asked + transient_backoff) s.backoff),
  )
