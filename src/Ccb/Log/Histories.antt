-- ===== src/Ccb/Log/Histories.antt =====
-- Every action of the client, up to any number of iterations of the watch daemon, keeps the log
-- justified.
use ccbroker.Base.{
  ℕ, zero, suc, String, Bool, false, Option, none, some, List, [], ◌∷◌, Dict, ℤ, Ends, Ends-pure,
  Ends-if, Ends-bind, Ends-match, pure, ◌>>=◌, when◌then◌else◌, match_option,
}
use ccbroker.Config.AgentFile.{Target, Agent}
use ccbroker.Ccb.State.{World, Machine, Act, UsageRow, get_usage, poll, sleep, elapse}
use ccbroker.Ccb.Broker.{fetch_usage_rows, long_poll}
use ccbroker.Ccb.Sync.{sync_each, sync_all, sync_cycle}
use ccbroker.Ccb.Watch.{
  Watch, Next, again, stopped, crashed, pause, sync_then, poll_failed, polled, watch_named,
  reloaded, iterate, go_on, watch,
}
use ccbroker.Ccb.Log.{Justified}
use ccbroker.Ccb.Log.Quiet.{
  Ends-quiet, Quiet, Quiet-ask, Quiet-jitter, Quiet-watch_cred, Quiet-rotate,
  Quiet-write_status_cache,
}
use ccbroker.Ccb.Log.Offering.{Ends-http}
use ccbroker.Ccb.Log.Writing.{Ends-sync_target}

-- `m` keeps the log justified.
abbrev pub Safe : {A : Type 0} → Act A → Type 0
Safe m = Ends (λ s. Justified s.log) m (λ a s. Justified s.log)

module _ {A : Type 0} where
  Safe-pure : (a : A) → Safe (pure a)
  Safe-pure a = Ends-pure a (λ s j. j)

  Safe-if : (b : Bool) (m n : Act A) → Safe m → Safe n → Safe (when b then m else n)
  Safe-if b m n sm sn = Ends-if b m n (λ e. sm) (λ e. sn)

  Safe-match :
      {C : Type 0} (o : Option C) (m : Act A) (f : C → Act A)
      → Safe m
      → ((c : C) → Safe (f c))
      → Safe (match_option o m f)
  Safe-match o m f sm sf = Ends-match o m f (λ e. sm) (λ c e. sf c)

  Safe-bind :
      {B : Type 0} (m : Act B) (f : B → Act A) → Safe m → ((b : B) → Safe (f b)) → Safe (m >>= f)
  Safe-bind m f sm sf = Ends-bind m f sm sf

  Safe-Quiet : (m : Act A) → Quiet m → Safe m
  Safe-Quiet m q = Ends-quiet Justified m q

ruleset safe_rules = (Safe-pure, Safe-if, Safe-match, Safe-bind)

module _ (w : World) where
  Safe-sleep : (d : ℤ) → Safe (sleep w d)
  unfolding sleep elapse
  Safe-sleep d = record { at = λ s j. j }

  Safe-fetch_usage_rows : Safe (fetch_usage_rows w)
  unfolding fetch_usage_rows
  Safe-fetch_usage_rows =
      Safe-bind _ _ (Ends-http w (λ a. Justified) Justified get_usage (λ a log j. j))
        (λ a. Safe-pure _)

  Safe-long_poll : (name : String) (since wait : ℤ) → Safe (long_poll w name since wait)
  unfolding long_poll
  Safe-long_poll name since wait =
      Safe-bind _ _ (Ends-http w (λ a. Justified) Justified (poll name since wait) (λ a log j. j))
        (λ a. Safe-pure _)

  Safe-sync_each : (by_name : Dict UsageRow) (ts : List Target) → Safe (sync_each w by_name ts)
  unfolding sync_each
  Safe-sync_each by_name [] = Safe-pure (some 0)
  Safe-sync_each by_name (t ∷ ts) = Safe-bind _ _ (Ends-sync_target w t by_name) λ got.
      Safe-match got _ _ (Safe-pure none)
        λ fail. Safe-bind _ _ (Safe-sync_each by_name ts) λ rest. Safe-pure _

  pub Safe-sync_cycle : (cfg : Agent) (force_auto : Bool) → Safe (sync_cycle w cfg force_auto)
  unfolding sync_cycle sync_all
  Safe-sync_cycle cfg force_auto = Safe-bind _ _ Safe-fetch_usage_rows λ got.
      Safe-bind _ _
        (Safe-match got _ _ (Safe-pure tt) λ rows.
          Safe-bind _ _ (Safe-Quiet _ (Quiet-rotate w cfg force_auto rows))
            (λ u. Safe-Quiet _ (Quiet-write_status_cache w rows)))
        (λ u. Safe-sync_each _ cfg.targets)

  Safe-pause : (d : ℤ) (st : Watch) → Safe (pause w d st)
  unfolding pause
  Safe-pause d st =
      Safe-bind _ _ (Safe-Quiet _ (Quiet-jitter w d))
        λ long. Safe-bind _ _ (Safe-sleep long) λ c. Safe-if c _ _ (Safe-pure stopped) (Safe-pure _)

  Safe-sync_then : (cfg : Agent) (next : Act Next) → Safe next → Safe (sync_then w cfg next)
  unfolding sync_then
  Safe-sync_then cfg next sn =
      Safe-bind _ _ (Safe-sync_cycle cfg false)
        λ fails. Safe-match fails _ _ (Safe-pure crashed) (λ n. sn)

  Safe-poll_failed : (st : Watch) → Safe (poll_failed w st)
  unfolding poll_failed
  Safe-poll_failed st =
      Safe-bind _ _ (Safe-Quiet _ (Quiet-ask w w.cancelled))
        λ c. Safe-if c _ _ (Safe-pure stopped) (Safe-pause _ _)

  Safe-polled : (st : Watch) (got : ℤ × Bool) → Safe (polled w st got)
  unfolding polled
  Safe-polled st got = Safe-sync_then st.cfg _ (Safe-if _ _ _ (Safe-pause _ _) (Safe-pure _))

  Safe-watch_named : (st : Watch) (name : String) → Safe (watch_named w st name)
  unfolding watch_named
  Safe-watch_named st name = Safe-if _ _ _ (Safe-sync_then st.cfg _ (Safe-pause _ _)) (
      Safe-bind _ _ (Safe-long_poll name _ _)
        (λ got. Safe-match got _ _ (Safe-poll_failed st) (Safe-polled st)))

  Safe-iterate : (st : Watch) → Safe (iterate w st)
  unfolding iterate reloaded
  Safe-iterate st = Safe-bind _ _ (Safe-Quiet _ (Quiet-ask w w.cancelled)) λ c.
      Safe-if c _ _ (Safe-pure stopped) (
        Safe-bind _ _ (Safe-Quiet _ (Quiet-ask w w.reload))
          λ fresh. Safe-bind _ _ (Safe-Quiet _ (Quiet-watch_cred w _)) (Safe-watch_named _))

  Safe-go_on :
      (more : Watch → Act Next) (next : Next)
      → ((st : Watch) → Safe (more st))
      → Safe (go_on more next)
  Safe-go_on more (again st) sm = sm st
  Safe-go_on more stopped sm = Safe-pure stopped
  Safe-go_on more crashed sm = Safe-pure crashed

  Safe-watch : (n : ℕ) (st : Watch) → Safe (watch w n st)
  unfolding watch
  Safe-watch zero st = Safe-pure (again st)
  Safe-watch (suc n) st = Safe-bind _ _ (Safe-iterate st) λ next. Safe-go_on _ next (Safe-watch n)

  -- However many iterations the watch daemon makes, whatever the broker answers and other programs do
  -- in between: if every target write in the log was justified, every one still is. A write follows
  -- a read of the same target, puts an envelope that the broker answered, less its refresh token,
  -- into what was read; and if what was read held a refresh token, the same tokens had been
  -- offered to the broker, which adopted them, knew their lineage, or found them rejected while its
  -- own token was attested live.
  pub watch-Justified :
      (n : ℕ) (st : Watch) (s : Machine) → Justified s.log → Justified (watch w n st s).1.log
  watch-Justified n st s j = (Safe-watch n st).at s j
