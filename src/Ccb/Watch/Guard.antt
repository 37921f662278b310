-- ===== src/Ccb/Watch/Guard.antt =====
-- The single-instance guard of `ccb watch` (cmd/ccb/daemon_unix.go: acquireWatchLock; cmd/ccb/main.go:
-- the start of runWatch, watchLockHeld, runEnsureAlive), between the processes of one machine that
-- share one lock file. The kernel grants an exclusive flock if nobody has it, and drops that of a
-- process which ends.
use ccbroker.Base.{
  ℕ, ◌≡◌, ◌⊎◌, eqb, Bool, true, false, not, Option, none, some, List, [], ◌∷◌, keep, if◌then◌else◌,
}

-- The processes that are in their loop, with and without the lock.
pub record Watchers : Type 0 where
  pub holder : Option ℕ
  pub guarded : List ℕ
  pub unguarded : List ℕ

abbrev pub nobody : Watchers
nobody = record { holder = none; guarded = []; unguarded = [] }

-- acquireWatchLock by a process: `none` is an error of the directory, the file or the call.
unfoldable pub acquire : Bool → ℕ → Watchers → Option Bool × Watchers
acquire true pid ws = (none, ws)
acquire false pid ws = elim ws.holder [
  | none ↦ (some true, record ws { holder = some pid })
  | some other ↦ (some false, ws)
]

-- What a watcher does with the lock: `refused` exits.
pub data Start : Type 0 where
  refused with_lock without_lock : Start

unfoldable pub start_of : Option Bool → Start
start_of none = without_lock
start_of (some true) = with_lock
start_of (some false) = refused

abbrev entered : Start → ℕ → Watchers → Watchers
entered refused pid ws = ws
entered with_lock pid ws = record ws { guarded = pid ∷ ws.guarded }
entered without_lock pid ws = record ws { unguarded = pid ∷ ws.unguarded }

-- runWatch, up to its loop
unfoldable pub start_watch : Bool → ℕ → Watchers → Watchers
start_watch fails pid ws = let (got, ws') = acquire fails pid ws in entered (start_of got) pid ws'

-- A process ends, or lets the lock go.
abbrev released : ℕ → Option ℕ → Option ℕ
released pid none = none
released pid (some q) = if eqb q pid then none else some q

unfoldable pub leave : ℕ → Watchers → Watchers
leave pid ws = record ws {
  holder = released pid ws.holder;
  guarded = keep (λ q. not (eqb q pid)) ws.guarded;
  unguarded = keep (λ q. not (eqb q pid)) ws.unguarded;
}

-- watchLockHeld, of what acquireWatchLock gave
unfoldable pub lock_held : Option Bool → Bool
lock_held (some false) = true
lock_held _ = false

-- The steps of the processes. A probe is that of runEnsureAlive, which has the lock for a moment, and
-- lets it go as `ends` does.
pub data Step : Watchers → Watchers → Type 0 where
  starts : (ws : Watchers) (fails : Bool) (pid : ℕ) → Step ws (start_watch fails pid ws)
  probes : (ws : Watchers) (fails : Bool) (pid : ℕ) → Step ws (acquire fails pid ws).1
  ends : (ws : Watchers) (pid : ℕ) → Step ws (leave pid ws)

pub data Reach : Watchers → Type 0 where
  at_first : Reach nobody
  then_step : {ws ws' : Watchers} → Reach ws → Step ws ws' → Reach ws'

-- The one process with a guarded loop is the holder.
abbrev Exclusive : Watchers → Type 0
Exclusive ws = (ws.guarded ≡ []) ⊎ ((p : ℕ) × (ws.guarded ≡ p ∷ []) × (ws.holder ≡ some p))

-- What `start_watch` makes of an answer.
abbrev begun : ℕ → Option Bool × Watchers → Watchers
begun pid r = entered (start_of r.0) pid r.1

-- The lock call of a step gave an answer.
abbrev pub Answers : {ws ws' : Watchers} → Step ws ws' → Type 0
Answers (starts ws fails pid) = fails ≡ false
Answers (probes ws fails pid) = Unit
Answers (ends ws pid) = Unit

-- So did that of every start on the way.
abbrev pub NoError : {ws : Watchers} → Reach ws → Type 0
NoError at_first = Unit
NoError (then_step r s) = NoError r × Answers s
