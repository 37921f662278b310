-- ===== src/Ccb/Setup/Scheduler.antt =====
-- The scheduler that `ccb setup` offers (cmd/ccb/setup.go: offerScheduler).
use ccbroker.Base.{
  String, Bool, true, false, Option, List, [], ◌∷◌, ℕ, ℤ, Dict, codes, trim_space, pure, ◌>>=◌,
  ◌>>◌, match_option, when◌then◌else◌,
}
use ccbroker.Json.{Decimal}
use ccbroker.Config.AgentFile.{Url}
use ccbroker.Ccb.State.{World, Act, ask, write_script}
use ccbroker.Ccb.Local.{expand_home}
use ccbroker.Ccb.Transport.{Library}
use ccbroker.Ccb.Setup.Dialog.{yes_or}
use ccbroker.Ccb.Setup.Units.{
  launchd_watch_plist, launchd_sync_plist, systemd_watch_service, systemd_sync_service,
  systemd_sync_timer,
}

-- What setup asks of the machine besides `World`: url.Parse, strconv.ParseFloat of a finite number,
-- whether runtime.GOOS is linux, whether a command and os.MkdirAll give no error, and what becomes
-- of certificates.
pub record Host : Type 0 where
  pub parse_url : String → Option Url
  pub parse_float : String → Option Decimal
  pub is_linux : Bool
  -- AppendCertsFromPEM, and the pairs that tls.LoadX509KeyPair takes
  pub has_certs : List ℕ → Bool
  pub pairs : List ℕ → List ℕ → Bool
  pub exec : ℕ → List String → Bool
  pub make_dir : ℕ → String → Bool

abbrev pub library : Host → Library
library h = record { has_certs = h.has_certs; pairs = h.pairs; parse_url = h.parse_url }

-- `crontab`: the lines for the crontab are printed.
pub data Scheduled : Type 0 where
  no_program declined failed crontab installed : Scheduled

-- The answer to one more question, and the lines behind it.
abbrev pub line_of : List String → String
line_of [] = ""
line_of (l ∷ ls) = trim_space l

abbrev pub lines_after : List String → List String
lines_after [] = []
lines_after (l ∷ ls) = ls

module _ (h : Host) (w : World) where
  unfoldable pub run_command : List String → Act Bool
  run_command args = ask w (λ i. h.exec i args)

  -- The files in order, up to the first that is not written.
  unfoldable pub write_units : Dict (List ℕ) → Act Bool
  write_units [] = pure true
  write_units ((path, body) ∷ units) = do
    done ← write_script w path body
    when done then write_units units else pure false

  unfoldable pub load_agents : List String → Act Scheduled
  load_agents [] = pure installed
  load_agents (p ∷ ps) = do
    run_command ("launchctl" ∷ "unload" ∷ p ∷ [])
    done ← run_command ("launchctl" ∷ "load" ∷ "-w" ∷ p ∷ [])
    when done then load_agents ps else pure failed

  abbrev watch_plist : String
  watch_plist = expand_home w "~/Library/LaunchAgents/com.ccbroker.watch.plist"

  abbrev sync_plist : String
  sync_plist = expand_home w "~/Library/LaunchAgents/com.ccbroker.sync.plist"

  abbrev log_path : List ℕ
  log_path = codes (expand_home w "~/.config/ccbroker/agent.log")

  unfoldable pub install_launchd : String → String → ℤ → Act Scheduled
  install_launchd exe cfg_path interval = do
    done ← write_units (
        (watch_plist, launchd_watch_plist (codes exe) (codes cfg_path) log_path)
        ∷ (sync_plist, launchd_sync_plist (codes exe) (codes cfg_path) log_path interval)
        ∷ [])
    when done then load_agents (watch_plist ∷ sync_plist ∷ []) else pure failed

  abbrev unit_dir : String
  unit_dir = expand_home w "~/.config/systemd/user"

  -- The commands up to the first that fails.
  unfoldable pub run_each : List (List String) → Act Bool
  run_each [] = pure true
  run_each (c ∷ cs) = do done ← run_command c; when done then run_each cs else pure false

  -- Go leaves the order of the three files open.
  unfoldable pub install_systemd : String → String → ℤ → Act Scheduled
  install_systemd exe cfg_path interval = do
    done ← write_units (
        (
          w.join_path unit_dir "ccb-watch.service",
          systemd_watch_service (codes exe) (codes cfg_path),
        )
        ∷ (
          w.join_path unit_dir "ccb-sync.service",
          systemd_sync_service (codes exe) (codes cfg_path),
        )
        ∷ (w.join_path unit_dir "ccb-sync.timer", systemd_sync_timer interval)
        ∷ [])
    when done
        then (do
          run_command ("systemctl" ∷ "--user" ∷ "daemon-reload" ∷ [])
          on ← run_each (
              ("systemctl" ∷ "--user" ∷ "enable" ∷ "--now" ∷ "ccb-watch.service" ∷ [])
              ∷ ("systemctl" ∷ "--user" ∷ "enable" ∷ "--now" ∷ "ccb-sync.timer" ∷ [])
              ∷ [])
          when on then pure installed else pure failed)
        else pure failed

  unfoldable pub has_systemd : Act Bool
  has_systemd = do
    made ← ask w (λ i. h.make_dir i unit_dir)
    when made then run_command ("systemctl" ∷ "--user" ∷ "daemon-reload" ∷ []) else pure false

  unfoldable pub offer_with : String → ℤ → String → String → Act Scheduled
  offer_with cfg_path interval ans exe =
      when w.is_darwin
      then (when yes_or true ans then install_launchd exe cfg_path interval else pure declined)
      else when h.is_linux
      then (do
        ready ← has_systemd
        when ready
            then (when yes_or true ans
                then install_systemd exe cfg_path interval
                else pure declined)
            else pure crontab)
      else pure crontab

  -- offerScheduler
  unfoldable pub offer_scheduler : String → ℤ → String → Act Scheduled
  offer_scheduler cfg_path interval ans =
      match_option w.exe (pure no_program) (offer_with cfg_path interval ans)
