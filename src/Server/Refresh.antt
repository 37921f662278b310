-- ===== src/Server/Refresh.antt =====
-- The refresh of a credential (server.go: needsRefresh, ensureFresh, applyRefresh, doRefresh,
-- refreshDue).
pub mod Outcomes
use ccbroker.Base.{
  ℕ, ◌+◌, String, ◌==◌, Bool, true, false, not, Option, none, some, List, [], ◌∷◌, ℤ, pos, ◌+ℤ◌,
  ◌-ℤ◌, ◌*ℤ◌, leb_ℤ, Dict, lookup, insert, erase, fields, ltb, if◌then◌else◌,
}
use ccbroker.Json.{Value, number, text, array, texts, of_int}
use ccbroker.Creds.{
  Record, ok, dead, health, same_health, access_token, refresh_token, expires_at_ms,
}
use ccbroker.Anthropic.{refresh_grant, Grant, RefreshError, Refreshed, granted, refused, refresh}
use ccbroker.Store
use ccbroker.Server.State.{
  when◌then◌else◌, Broker, Env, M, pure, gets, modify, ◌>>=◌, ◌>>◌, now, wall_now, upstream, lock,
  try_lock,
}
use ccbroker.Server.Gen.{with_record, commit}
use ccbroker.Server.Ring.{retire_hash}

-- The errors of a refresh that a caller tells apart.
pub data Failure : Type 0 where
  not_exist in_backoff save_failed : Failure
  refresh_failed : RefreshError → Failure

-- (*creds.Record, error)
abbrev pub Outcome : Type 0
Outcome = Option Record × Option Failure

-- transientBackoff, in milliseconds
abbrev pub transient_backoff : ℕ
transient_backoff = 60000

abbrev pub first_nonempty : String → String → String
first_nonempty a b = if a == "" then b else a

abbrev pub is_ok : Record → Bool
is_ok r = same_health (health r) ok

-- The wall clock is before the time that the backoff of a credential ends.
abbrev pub backing_off : ℕ → Option ℕ → Bool
backing_off t none = false
backing_off t (some until) = ltb t until

unfoldable pub set_backoff : String → ℕ → Broker → Broker
set_backoff name t s = record s { backoff = insert name (t + transient_backoff) s.backoff }

unfoldable pub clear_backoff : String → Broker → Broker
clear_backoff name s = record s { backoff = erase name s.backoff }

-- The stored object with what a grant brings; `expires` is the new expiry.
unfoldable pub granted_oauth : Dict Value → Grant → ℤ → Dict Value
granted_oauth oauth g expires =
    let o1 : Dict Value = insert "accessToken" (text g.access_token) oauth in
    let o2 : Dict Value =
      if g.refresh_token == "" then o1 else insert "refreshToken" (text g.refresh_token) o1 in
    let o3 : Dict Value = insert "expiresAt" (number (of_int expires)) o2 in
    if g.scope == "" then o3 else insert "scopes" (array (texts (fields g.scope))) o3

module _ (env : Env) where
  -- needsRefresh, at time `t`
  unfoldable pub needs_refresh : ℕ → Record → Bool
  needs_refresh t r = leb_ℤ (expires_at_ms r -ℤ pos t) (env.cfg.refresh_skew_sec *ℤ pos 1000)

  -- rec.Health() != HealthOK || !s.needsRefresh(rec): the clock is read only for a healthy record
  unfoldable pub leave_alone : Record → M Bool
  leave_alone rec =
      when is_ok rec then (do t ← now env; pure (not (needs_refresh t rec))) else pure true

  -- applyRefresh
  unfoldable pub apply_refresh : Record → Grant → M Record
  apply_refresh rec g = do
    t ← now env
    since ← now env
    pure (record rec {
      oauth = granted_oauth rec.oauth g (pos t +ℤ g.expires_in *ℤ pos 1000);
      account = first_nonempty g.account_email rec.account;
      account_uuid = first_nonempty g.account_uuid rec.account_uuid;
      health_state = ok;
      health_since = since;
      last_error = "";
      retired_hashes = retire_hash rec.retired_hashes (env.sha256hex (access_token rec));
    })

  -- The record that a permanent refusal leaves.
  unfoldable pub mark_dead : Record → RefreshError → M Record
  mark_dead rec e = do
    since ← now env
    pure (record rec {
      health_state = dead;
      health_since = since;
      last_error = env.refresh_error_text e;
    })

  unfoldable pub refresh_refused : Record → RefreshError → M Outcome
  refresh_refused rec e =
      when e.permanent
      then (do
        gone ← mark_dead rec e
        written ← commit env gone
        pure (some written.0, some (refresh_failed e)))
      else (do
        t ← wall_now env
        modify (set_backoff rec.name t)
        pure (some rec, some (refresh_failed e)))

  unfoldable pub refresh_granted : Record → Grant → M Outcome
  refresh_granted rec g = do
    nr ← apply_refresh rec g
    written ← commit env nr
    when written.1
        then (modify (clear_backoff rec.name) >> pure (some written.0, none))
        else pure (some rec, some save_failed)

  unfoldable pub refresh_answered : Record → Refreshed → M Outcome
  refresh_answered rec (refused e) = refresh_refused rec e
  refresh_answered rec (granted g) = refresh_granted rec g

  -- doRefresh, under the mutex of the credential
  unfoldable pub do_refresh : Record → M Outcome
  do_refresh rec = do
    a ← upstream env (some rec.name) (refresh_grant (refresh_token rec))
    refresh_answered rec (refresh a)

  -- The second half of ensureFresh, with the mutex held.
  unfoldable pub refresh_locked : Record → M Outcome
  refresh_locked rec = do
    leave ← leave_alone rec
    when leave then pure (some rec, none) else do
      until ← gets (λ s. lookup rec.name s.backoff)
      t ← wall_now env
      when backing_off t until then pure (some rec, some in_backoff) else do_refresh rec

  -- ensureFresh
  unfoldable pub ensure_fresh : String → M Outcome
  ensure_fresh name = with_record name (pure (none, some not_exist)) λ rec. do
    leave ← leave_alone rec
    when leave
        then pure (some rec, none)
        else do lock env; with_record name (pure (none, some not_exist)) refresh_locked

  -- One round of refreshDue, for a record of the list that it began with.
  unfoldable pub refresh_one : Record → M (Unit {0})
  refresh_one rec = do
    leave ← leave_alone rec
    when leave then pure tt else do
      free ← try_lock env
      when not free
          then pure tt
          else do with_record rec.name (pure tt) (λ r. refresh_locked r >> pure tt)

  unfoldable pub refresh_each : List Record → M (Unit {0})
  refresh_each [] = pure tt
  refresh_each (rec ∷ rest) = refresh_one rec >> refresh_each rest

  -- refreshDue
  unfoldable pub refresh_due : M (Unit {0})
  refresh_due = do recs ← gets (λ s. Store.list s.store); refresh_each recs
