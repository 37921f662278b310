-- ===== src/Ccb/Watch.antt =====
-- The watch daemon (cmd/ccb/main.go: runWatch, watchCred, jitter), one iteration of its loop after
-- another. Durations are in nanoseconds; a wait that would overflow int64 is not cut off.
pub mod Waiting
pub mod Pacing
pub mod Guard
use ccbroker.Base.{
  ℕ, zero, suc, ◌+◌, ◌*◌, ◌/◌, String, ◌==◌, Bool, false, not, ◌&&◌, Option, none, some, List, [],
  ◌∷◌, ℤ, pos, negsuc, ◌*ℤ◌, ltb, ltb_ℤ, if◌then◌else◌, pure, ◌>>=◌, match_option, when◌then◌else◌,
}
use ccbroker.Config.AgentFile.{Target, Agent}
use ccbroker.Ccb.State.{World, Act, ask, sleep}
use ccbroker.Ccb.Broker.{long_poll}
use ccbroker.Ccb.Rotate.{resolve_cred}
use ccbroker.Ccb.Sync.{sync_cycle}

abbrev pub second : ℕ
second = 1000000000

abbrev pub first_backoff : ℕ
first_backoff = 5 * second

abbrev pub last_backoff : ℕ
last_backoff = 60 * second

-- The variables of the loop.
pub record Watch : Type 0 where
  pub cfg : Agent
  pub last_gen : ℤ
  pub backoff : ℕ

pub data Next : Type 0 where
  again : Watch → Next
  stopped crashed : Next

-- backoff *= 2, at most 60 s
unfoldable pub double : ℕ → ℕ
double b = if ltb last_backoff (b * 2) then last_backoff else b * 2

abbrev pub later : ℤ → ℤ → ℤ
later last gen = if ltb_ℤ last gen then gen else last

abbrev or_same : Agent → Option Agent → Agent
or_same cfg none = cfg
or_same cfg (some fresh) = fresh

abbrev pub go_on : (Watch → Act Next) → Next → Act Next
go_on more (again st) = more st
go_on more stopped = pure stopped
go_on more crashed = pure crashed

-- time.Duration(waitSec) * time.Second
abbrev pub wait_of : Agent → ℤ
wait_of cfg = cfg.watch_wait_sec *ℤ pos second

module _ (w : World) where
  -- jitter
  unfoldable pub jitter : ℤ → Act ℤ
  jitter (negsuc n) = pure (negsuc n)
  jitter (pos zero) = pure (pos zero)
  jitter (pos (suc n)) = do r ← ask w (λ i. w.random i (suc n / 2 + 1)); pure (pos (suc n + r))

  -- watchCred, "" where no target resolves
  unfoldable pub watch_cred : List Target → Act String
  watch_cred [] = pure ""
  watch_cred (t ∷ ts) = do found ← resolve_cred w t.cred; match_option found (watch_cred ts) pure

  -- A jittered sleep, after which the loop goes on.
  unfoldable pub pause : ℤ → Watch → Act Next
  pause d st = do
    long ← jitter d
    cancelled ← sleep w long
    when cancelled then pure stopped else pure (again st)

  -- A sync, which a panic ends.
  unfoldable pub sync_then : Agent → Act Next → Act Next
  sync_then cfg next = do
    fails ← sync_cycle w cfg false
    match_option fails (pure crashed) λ n. next

  unfoldable pub poll_failed : Watch → Act Next
  poll_failed st = do
    cancelled ← ask w w.cancelled
    when cancelled
        then pure stopped
        else pause (pos st.backoff) (record st { backoff = double st.backoff })

  -- After an answer of the long poll.
  unfoldable pub polled : Watch → ℤ × Bool → Act Next
  polled st got =
      let st' : Watch = record st { backoff = first_backoff; last_gen = later st.last_gen got.0 } in
      sync_then st.cfg (
        when got.1 && not (ltb_ℤ st.last_gen got.0)
        then pause (wait_of st.cfg) st'
        else pure (again st'))

  unfoldable pub watch_named : Watch → String → Act Next
  watch_named st name = when name == "" then sync_then st.cfg (pause (wait_of st.cfg) st) else (do
    got ← long_poll w name st.last_gen st.cfg.watch_wait_sec
    match_option got (poll_failed st) (polled st))

  unfoldable pub reloaded : Watch → Act Next
  reloaded st = do name ← watch_cred st.cfg.targets; watch_named st name

  -- One iteration.
  unfoldable pub iterate : Watch → Act Next
  iterate st = do
    cancelled ← ask w w.cancelled
    when cancelled
        then pure stopped
        else (do fresh ← ask w w.reload; reloaded (record st { cfg = or_same st.cfg fresh }))

  -- So many iterations, as long as the loop goes on.
  unfoldable pub watch : ℕ → Watch → Act Next
  watch zero st = pure (again st)
  watch (suc n) st = do next ← iterate st; go_on (watch n) next

abbrev pub start : Agent → Watch
start cfg = record { cfg = cfg; last_gen = pos 0; backoff = first_backoff }
