-- ===== src/Server/State.antt =====
-- The state of the broker (Server of server.go), what surrounds it, and the actions on it.
--
-- `Env` answers what the code does not compute: the clock, the disk, the upstream API, and what the
-- other goroutines do to the shared state while a handler waits (for a mutex, an answer or a
-- timer). Each of its answers is indexed by a counter that every question raises, so a clock may
-- step back and an answer may differ at each call.
unfoldable pub use ccbroker.Base.{pure, gets, modify, ◌>>=◌, ◌>>◌, when◌then◌else◌, match_option}
use ccbroker.Base.{Action, ℕ, suc, String, Bool, Option, none, some, List, ◌∷◌, Dict}
use ccbroker.Json.{Value}
use ccbroker.Anthropic.{Request, Answer, FetchError, RefreshError, Usage, ResetTime}
use ccbroker.Config.{ServerConfig}
use ccbroker.Store.{Store}

-- credState: the generation and how often its wake channel has been closed and replaced
pub record CredState : Type 0 where
  pub gen : ℕ
  pub wakes : ℕ

-- probeEntry
pub record ProbeEntry : Type 0 where
  pub live : Bool
  pub at : ℕ
  pub for_gen : ℕ

-- rateEntry
pub record RateEntry : Type 0 where
  pub count : ℕ
  pub window_start : ℕ

-- usageEntry
pub record UsageEntry : Type 0 where
  pub usage : Option Usage
  pub oauth_account : Dict Value
  pub fetched_at : ℕ
  pub last_error : String

-- Server, less the locks. `sent` lists the upstream requests of the modelled handler, newest first.
pub record Broker : Type 0 where
  pub store : Store
  pub backoff : Dict ℕ
  pub dead_probe : Dict ℕ
  pub store_ver : ℕ
  pub gen_state : Dict CredState
  pub usage : Dict UsageEntry
  pub probe : Dict ProbeEntry
  pub rate : Dict RateEntry
  pub migrated : Bool
  pub asked : ℕ
  pub sent : List Request

pub record Env : Type 0 where
  pub cfg : ServerConfig
  -- the tunables, in milliseconds
  pub reclaim_delay : ℕ
  pub dead_probe_interval : ℕ
  pub probe_ttl : ℕ
  pub offer_rate : ℕ
  -- s.now(), and time.Now()
  pub clock : ℕ → ℕ
  pub wall : ℕ → ℕ
  -- whether a save succeeds, a TryLock does, a context is cancelled, a closed wake channel is seen
  -- before the timer
  pub saves : ℕ → Bool
  pub locks : ℕ → Bool
  pub cancelled : ℕ → Bool
  pub wake_first : ℕ → Bool
  pub answer : ℕ → Request → Answer
  -- the other goroutines, while this one holds no credential mutex, or that of one credential
  pub others : ℕ → Broker → Broker
  pub others_beside : ℕ → String → Broker → Broker
  pub sha256hex : String → String
  pub refresh_error_text : RefreshError → String
  pub fetch_error_text : FetchError → String
  pub reset_time : ResetTime

abbrev pub M : Type 0 → Type 0
M A = Action Broker A

-- one answer of the environment
unfoldable pub draw : {A : Type 0} → (ℕ → A) → M A
draw f s = (f s.asked, record s { asked = suc s.asked })

module _ (env : Env) where
  unfoldable pub now : M ℕ
  now = draw env.clock

  unfoldable pub wall_now : M ℕ
  wall_now = draw env.wall

  abbrev interfere : Option String → ℕ → Broker → Broker
  interfere none i s = env.others i s
  interfere (some held) i s = env.others_beside i held s

  -- What the handler itself asked stays its own.
  unfoldable pub wait : Option String → M (Unit {0})
  wait held s = (tt, record (interfere held s.asked s) { asked = suc s.asked; sent = s.sent })

  -- An HTTP call, with the name of the credential whose mutex is held.
  unfoldable pub upstream : Option String → Request → M Answer
  upstream held req s = (
    env.answer s.asked req,
    record (interfere held s.asked s) { asked = suc s.asked; sent = req ∷ s.sent },
  )

  -- credMutex(name).Lock(): the others run until the lock is free
  unfoldable pub lock : M (Unit {0})
  lock = wait none

  -- m.TryLock()
  unfoldable pub try_lock : M Bool
  try_lock = draw env.locks
