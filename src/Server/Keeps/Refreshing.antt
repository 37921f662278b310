-- ===== src/Server/Keeps/Refreshing.antt =====
-- The refresh (Server/Refresh.antt) keeps what `Guards` guards.
use ccbroker.Base.{ℕ, String, List, [], ◌∷◌}
use ccbroker.Creds.{Record, access_token}
use ccbroker.Anthropic.{Grant, RefreshError, Refreshed, granted, refused}
use ccbroker.Server.State.{Broker, Env, M, pure, modify, ◌>>=◌}
use ccbroker.Server.Refresh.{
  set_backoff, clear_backoff, leave_alone, apply_refresh, mark_dead, refresh_refused,
  refresh_granted, refresh_answered, do_refresh, refresh_locked, ensure_fresh, refresh_one,
  refresh_each, refresh_due,
}
use ccbroker.Server.Keeps.{
  Keeps, Shared, Holds, Guards, guard_rules, Keeps-bind, Keeps-bind_read, Keeps-modify,
  Keeps-bind_read, Keeps-bind,
}

module _ {env : Env} {Q : Shared} {G : List String → Type 0} (k : Guards env Q G) where
  backoff_set : (name : String) (t : ℕ) → Keeps (Holds Q) (modify (set_backoff name t))
  unfolding set_backoff
  backoff_set name t = Keeps-modify _ (λ s h. h)

  backoff_cleared : (name : String) → Keeps (Holds Q) (modify (clear_backoff name))
  unfolding clear_backoff
  backoff_cleared name = Keeps-modify _ (λ s h. h)

  pub Keeps-leave_alone : (rec : Record) → Keeps (Holds Q) (leave_alone env rec)
  unfolding leave_alone
  Keeps-leave_alone rec = search guard_rules

  apply_refresh-ring :
      (rec : Record) (g : Grant) (s : Broker)
      → G rec.retired_hashes
      → G (apply_refresh env rec g s).0.retired_hashes
  unfolding apply_refresh ◌>>=◌ pure
  apply_refresh-ring rec g s h = k.retire rec.retired_hashes (env.sha256hex (access_token rec)) h

  mark_dead-ring :
      (rec : Record) (e : RefreshError) (s : Broker)
      → G rec.retired_hashes
      → G (mark_dead env rec e s).0.retired_hashes
  unfolding mark_dead ◌>>=◌ pure
  mark_dead-ring rec e s h = h

  apply_refresh-Keeps : (rec : Record) (g : Grant) → Keeps (Holds Q) (apply_refresh env rec g)
  unfolding apply_refresh
  apply_refresh-Keeps rec g = search guard_rules

  mark_dead-Keeps : (rec : Record) (e : RefreshError) → Keeps (Holds Q) (mark_dead env rec e)
  unfolding mark_dead
  mark_dead-Keeps rec e = search guard_rules

  -- A commit of what a grant makes of a record, and one of the record as dead.
  pub Keeps-applied :
      {A : Type 0} (rec : Record) (g : Grant) (f : Record → M A)
      → G rec.retired_hashes
      → ((nr : Record) → G nr.retired_hashes → Keeps (Holds Q) (f nr))
      → Keeps (Holds Q) (apply_refresh env rec g >>= f)
  Keeps-applied rec g f h kf =
      Keeps-bind_read (apply_refresh env rec g) f (λ nr. G nr.retired_hashes)
        (apply_refresh-Keeps rec g) (λ s _. apply_refresh-ring rec g s h) kf

  pub Keeps-marked :
      {A : Type 0} (rec : Record) (e : RefreshError) (f : Record → M A)
      → G rec.retired_hashes
      → ((nr : Record) → G nr.retired_hashes → Keeps (Holds Q) (f nr))
      → Keeps (Holds Q) (mark_dead env rec e >>= f)
  Keeps-marked rec e f h kf =
      Keeps-bind_read (mark_dead env rec e) f (λ nr. G nr.retired_hashes) (mark_dead-Keeps rec e)
        (λ s _. mark_dead-ring rec e s h) kf

  refused-Keeps :
      (rec : Record) (e : RefreshError)
      → G rec.retired_hashes
      → Keeps (Holds Q) (refresh_refused env rec e)
  unfolding refresh_refused
  refused-Keeps rec e h = search (guard_rules, Keeps-marked, backoff_set) depth 14

  granted-Keeps :
      (rec : Record) (g : Grant)
      → G rec.retired_hashes
      → Keeps (Holds Q) (refresh_granted env rec g)
  unfolding refresh_granted
  granted-Keeps rec g h = search (guard_rules, Keeps-applied, backoff_cleared) depth 14

  answered-Keeps :
      (rec : Record) (r : Refreshed)
      → G rec.retired_hashes
      → Keeps (Holds Q) (refresh_answered env rec r)
  unfolding refresh_answered
  answered-Keeps rec (refused e) h = refused-Keeps rec e h
  answered-Keeps rec (granted g) h = granted-Keeps rec g h

  pub do_refresh-Keeps :
      (rec : Record) → G rec.retired_hashes → Keeps (Holds Q) (do_refresh env rec)
  unfolding do_refresh
  do_refresh-Keeps rec h = search (guard_rules, answered-Keeps) depth 14

  locked-Keeps : (rec : Record) → G rec.retired_hashes → Keeps (Holds Q) (refresh_locked env rec)
  unfolding refresh_locked
  locked-Keeps rec h = search (guard_rules, Keeps-leave_alone, do_refresh-Keeps) depth 14

  pub ensure_fresh-Keeps : (name : String) → Keeps (Holds Q) (ensure_fresh env name)
  unfolding ensure_fresh
  ensure_fresh-Keeps name = search (guard_rules, Keeps-leave_alone, locked-Keeps) depth 14

  refresh_one-Keeps : (rec : Record) → Keeps (Holds Q) (refresh_one env rec)
  unfolding refresh_one
  refresh_one-Keeps rec = search (guard_rules, Keeps-leave_alone, locked-Keeps) depth 14

  refresh_each-Keeps : (recs : List Record) → Keeps (Holds Q) (refresh_each env recs)
  unfolding refresh_each
  refresh_each-Keeps [] = search guard_rules
  refresh_each-Keeps (rec ∷ rest) =
      Keeps-bind _ _ (refresh_one-Keeps rec) (λ _. refresh_each-Keeps rest)

  pub refresh_due-Keeps : Keeps (Holds Q) (refresh_due env)
  unfolding refresh_due
  refresh_due-Keeps = search (guard_rules, refresh_each-Keeps) depth 14
