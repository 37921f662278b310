-- ===== src/Ccb/Setup.antt =====
-- `ccb setup` (cmd/ccb/setup.go: runSetup, offerScheduler, printCronFallback, resolveExe), on the lines
-- that are typed. What is printed is left out; the outcome says how each part ended.
pub mod Units
pub mod Dialog
pub mod Wizard
pub mod Scheduler
pub mod Saved
use ccbroker.Base.{
  ℕ, String, ◌==◌, Bool, true, false, Option, none, some, List, [], ◌∷◌, ℤ, pure, ◌>>=◌,
  match_option, when◌then◌else◌,
}
use ccbroker.Json.{object, of_dict}
use ccbroker.Config.AgentFile.{Agent}
use ccbroker.Config.AgentJson.{agent_json}
use ccbroker.Ccb.State.{Content, document, World, Act, ask, read_file, write_file}
use ccbroker.Ccb.Local.{expand_home}
use ccbroker.Ccb.Policy.{load_content}
use ccbroker.Ccb.Sync.{sync_cycle}
use ccbroker.Ccb.Setup.Dialog.{Reply, said, ended, hangs, yes_or}
use ccbroker.Ccb.Setup.Wizard.{collect}
use ccbroker.Ccb.Transport.{http_client}
use ccbroker.Ccb.Setup.Scheduler.{library, Host, Scheduled, line_of, lines_after, offer_scheduler}

-- The test pull: not wanted, skipped for an error, or with so many failures.
pub data Pull : Type 0 where
  unwanted skipped : Pull
  pulled : ℕ → Pull

-- How the questions end: `kept` leaves an existing file, `out_of_input` and `unwritten` are errors,
-- `looping` asks for ever; `saved` has the configuration and the lines that are left.
pub data Stage : Type 0 where
  kept out_of_input unwritten looping : Stage
  saved : Agent → List String → Stage

-- `crashed` is a panic.
pub data Finished : Type 0 where
  stopped : Stage → Finished
  crashed : Finished
  finished : Agent → Pull → Scheduled → Finished

module _ (h : Host) (w : World) where
  abbrev is_there : Option (Option Content) → Bool
  is_there (some (some c)) = true
  is_there _ = false

  -- os.Stat(p), which gives no error
  unfoldable pub exists : String → Act Bool
  exists p = do got ← read_file w p; pure (is_there got)

  unfoldable pub save_config : String → Reply Agent → Act Stage
  save_config p ended = pure out_of_input
  save_config p hangs = pure looping
  save_config p (said a rest) = do
    done ← write_file w p (document (object (of_dict (agent_json a))))
    when done then pure (saved a rest) else pure unwritten

  unfoldable pub ask_all : String → List String → Act Stage
  ask_all p ls = save_config p (collect h.parse_url h.parse_float w.is_darwin ls)

  -- runSetup, as far as the file is written
  unfoldable pub configure : String → List String → Act Stage
  configure p ls = do
    there ← exists p
    when there
        then (when yes_or false (line_of ls) then ask_all p (lines_after ls) else pure kept)
        else ask_all p ls

  abbrev pulled_or : Option ℕ → Option Pull
  pulled_or none = none
  pulled_or (some n) = some (pulled n)

  unfoldable pub pull_with : Agent → Act (Option Pull)
  pull_with loaded = do
    client ← http_client w (library h) loaded
    match_option client (pure (some skipped))
        λ _. (do n ← sync_cycle w loaded false; pure (pulled_or n))

  abbrev load_read : Option (Option Content) → Option Agent
  load_read (some (some c)) = load_content h.parse_url c
  load_read _ = none

  -- The test pull, with the configuration as LoadAgent reads it.
  unfoldable pub test_pull : String → String → Act (Option Pull)
  test_pull p ans =
      when yes_or true ans
      then (do got ← read_file w p; match_option (load_read got) (pure (some skipped)) pull_with)
      else pure (some unwanted)

  unfoldable pub after_saving : String → Stage → Act Finished
  after_saving p (saved a rest) = do
    pull ← test_pull p (line_of rest)
    match_option pull (pure crashed) λ done. (do
      scheduled ← offer_scheduler h w p a.interval_sec (line_of (lines_after rest))
      pure (finished a done scheduled))
  after_saving p kept = pure (stopped kept)
  after_saving p out_of_input = pure (stopped out_of_input)
  after_saving p unwritten = pure (stopped unwritten)
  after_saving p looping = pure (stopped looping)

  -- runSetup
  unfoldable pub run_setup : String → List String → Act Finished
  run_setup path ls = do
    stage ← configure (expand_home w path) ls
    after_saving (expand_home w path) stage
