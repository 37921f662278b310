-- ===== src/Ccb/Main.antt =====
-- The command line of ccb (cmd/ccb/main.go: main, and the guard around runWatch and runEnsureAlive).
-- What is printed is left out. The loops of `run` and `watch` are made for so many rounds.
pub mod Arguments
use ccbroker.Base.{
  ℕ, zero, suc, String, ◌==◌, Bool, true, false, ◌&&◌, ◌||◌, Option, none, some, List, [], ◌∷◌,
  pure, ◌>>=◌, ◌>>◌, match_option, when◌then◌else◌, modify,
}
use ccbroker.Config.AgentFile.{Agent}
use ccbroker.Ccb.State.{Content, World, Machine, Act, ask, elapse, read_file}
use ccbroker.Ccb.Local.{expand_home}
use ccbroker.Ccb.Broker.{fetch_usage_rows}
use ccbroker.Ccb.Rotate.{write_active}
use ccbroker.Ccb.Sync.{sync_cycle, write_status_cache}
use ccbroker.Ccb.Watch.{Next, again, stopped, crashed, watch, start}
use ccbroker.Ccb.Watch.Guard.{Start, refused, start_of, lock_held}
use ccbroker.Ccb.Settings.{Installed, statusline_on, statusline_off}
use ccbroker.Ccb.Settings.Install.{install_statusline}
use ccbroker.Ccb.Policy
use ccbroker.Ccb.Policy.{run_policy, load_content}
use ccbroker.Ccb.Setup
use ccbroker.Ccb.Setup.{run_setup}
use ccbroker.Ccb.Transport.{http_client, http_client_timeout}
use ccbroker.Ccb.Setup.Scheduler.{library, Host}
use ccbroker.Ccb.Main.Arguments.{Flags, parse_flags, no_flags}

-- How the process ends: with a status, by a panic, or not yet.
pub data Exit : Type 0 where
  status : ℕ → Exit
  panicked running : Exit

-- What acquireWatchLock and startDetached give.
pub record Processes : Type 0 where
  pub lock : ℕ → Option Bool
  pub detach : ℕ → List String → Bool

abbrev of_installed : Installed → Exit
of_installed Installed.changed = status 0
of_installed Installed.unchanged = status 0
of_installed Installed.failed = status 1
of_installed Installed.crashed = panicked

abbrev of_policy : Policy.Outcome → Exit
of_policy (Policy.shown p t o) = status 0
of_policy (Policy.set p) = status 0
of_policy Policy.missing = status 1
of_policy Policy.failed = status 1
of_policy Policy.usage = status 1
of_policy Policy.crashed = panicked

abbrev of_stage : Setup.Stage → Exit
of_stage Setup.kept = status 0
of_stage Setup.looping = running
of_stage _ = status 1

abbrev of_setup : Setup.Finished → Exit
of_setup (Setup.stopped st) = of_stage st
of_setup Setup.crashed = panicked
of_setup (Setup.finished a pull scheduled) = status 0

-- os.Exit(1) if a target failed
abbrev of_failures : Option ℕ → Exit
of_failures none = panicked
of_failures (some zero) = status 0
of_failures (some (suc n)) = status 1

abbrev of_next : Next → Exit
of_next (again st) = running
of_next stopped = status 0
of_next crashed = panicked

abbrev head_of : List String → String
head_of [] = ""
head_of (s ∷ ss) = s

module _ (h : Host) (k : Processes) (w : World) where
  abbrev by_installed : Act Installed → Act Exit
  by_installed m = do done ← m; pure (of_installed done)

  -- runWatch, for so many iterations
  unfoldable pub run_watch : ℕ → Agent → Act Exit
  run_watch rounds cfg = do
    got ← ask w k.lock
    elim (start_of got) [
      | refused ↦ pure (status 0)
      | _ ↦ (do
        client ← http_client_timeout w (library h) cfg 90000
        match_option client (pure (status 1))
            λ _. (do next ← watch w rounds (start cfg); pure (of_next next)))
    ]

  unfoldable pub detach_watch : String → String → Act Exit
  detach_watch path exe = do
    done ← ask w (λ i. k.detach i (exe ∷ "watch" ∷ "-c" ∷ expand_home w path ∷ []))
    when done then pure (status 0) else pure (status 1)

  -- runEnsureAlive
  unfoldable pub ensure_alive : String → Act Exit
  ensure_alive path = do
    got ← ask w k.lock
    when lock_held got
        then pure (status 0)
        else match_option w.exe (pure (status 1)) (detach_watch path)

  -- the loop of `run`, so many rounds of it
  unfoldable pub run_rounds : ℕ → Agent → Act Exit
  run_rounds zero cfg = pure running
  run_rounds (suc n) cfg = do
    fails ← sync_cycle w cfg false
    match_option fails (pure panicked) λ count. (do modify (elapse w); run_rounds n cfg)

  abbrev after_use : Option ℕ → Exit
  after_use none = panicked
  after_use (some n) = status 0

  -- `use`: a failed sync does not count.
  unfoldable pub use_account : Agent → List String → Act Exit
  use_account cfg (name ∷ []) = do
    done ← write_active w name
    when done then (do fails ← sync_cycle w cfg false; pure (after_use fails)) else pure (status 1)
  use_account cfg _ = pure (status 1)

  abbrev sync_exit : Agent → Bool → Act Exit
  sync_exit cfg force_auto = do fails ← sync_cycle w cfg force_auto; pure (of_failures fails)

  unfoldable pub show_status : Act Exit
  show_status = do
    got ← fetch_usage_rows w
    match_option got (pure (status 1)) λ rows. (do write_status_cache w rows; pure (status 0))

  -- The commands that talk to the broker.
  unfoldable pub online : ℕ → String → Flags → Agent → Act Exit
  online rounds cmd f cfg =
      when cmd == "sync" || cmd == "pull"
      then sync_exit cfg false
      else when cmd == "watch"
      then run_watch rounds cfg
      else when cmd == "ensure-alive"
      then ensure_alive f.config_path
      else when cmd == "run"
      then run_rounds rounds cfg
      else when cmd == "use"
      then use_account cfg f.positional
      else when cmd == "auto"
      then sync_exit cfg true
      else when cmd == "status"
      then show_status
      else pure (status 1)

  abbrev load_read : Option (Option Content) → Option Agent
  load_read (some (some c)) = load_content h.parse_url c
  load_read _ = none

  -- The commands that want the configuration; the status line only prints.
  unfoldable pub with_config : ℕ → String → Flags → Act Exit
  with_config rounds cmd f = do
    got ← read_file w f.config_path
    match_option (load_read got) (pure (status 1)) λ cfg.
        when cmd == "statusline" then pure (status 0) else (do
          client ← http_client w (library h) cfg
          match_option client (pure (status 1)) λ _. online rounds cmd f cfg)

  unfoldable pub dispatch : ℕ → List String → String → Flags → Act Exit
  dispatch rounds typed cmd f =
      when cmd == "statusline" && f.install
      then by_installed (install_statusline w f.settings_path)
      else when cmd == "statusline" && head_of f.positional == "on"
      then by_installed (statusline_on w f.settings_path)
      else when cmd == "statusline" && head_of f.positional == "off"
      then by_installed (statusline_off w f.settings_path)
      else when cmd == "version"
      then pure (status 0)
      else when cmd == "setup"
      then (do done ← run_setup h w f.config_path typed; pure (of_setup done))
      else when cmd == "policy"
      then (do done ← run_policy h.parse_url w f.config_path f.positional; pure (of_policy done))
      else with_config rounds cmd f

  -- main, on os.Args[1:] and the lines that are typed
  unfoldable pub main : ℕ → List String → List String → Act Exit
  main rounds typed [] = pure (status 2)
  main rounds typed (cmd ∷ args) =
      dispatch rounds typed cmd
        (parse_flags (no_flags (expand_home w "~/.config/ccbroker/agent.json")) args)
