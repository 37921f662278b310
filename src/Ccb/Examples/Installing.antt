-- ===== src/Ccb/Examples/Installing.antt =====
-- A setup, a change of the policy, and what the scheduler gets.
use ccbroker.Base.{
  ◌≡◌, ◌≢◌, refl, ◌≤◌, ◌*◌, ◌++◌, true, false, none, some, List, [], ◌∷◌, ℕ, pos, lookup, codes,
  read_digits, arith, trim_space, pure, ◌>>=◌, when◌then◌else◌,
}
use ccbroker.Json.{object, of_dict}
use ccbroker.Config.AgentJson.{agent_json}
use ccbroker.Ccb.State.{document, write_file, elapse}
use ccbroker.Ccb.Setup.{saved, stopped, looping, save_config, ask_all, run_setup}
use ccbroker.Ccb.Setup.Dialog
use ccbroker.Ccb.Setup.Dialog.{ask, ask_required, ask_choice, answer, yes_or}
use ccbroker.Ccb.Setup.Wizard.{collect, ask_key, ask_use_file, ask_target, ask_threshold}
use ccbroker.Ccb.Setup.Scheduler.{Host}
use ccbroker.Ccb.Setup.Wizard.{default_threshold}
use ccbroker.Ccb.Setup.Wizard.Typed.{Typed, Valid, agent_of, lines_of}
use ccbroker.Ccb.Setup.Saved.{ask_all-Saved, run_setup_ends}
use ccbroker.Ccb.Setup.Units.{launchd_watch_plist, launchd_sync_plist, cron_lines}
use ccbroker.Ccb.Setup.Units.Plist.{strings_in, strings-launchd_plists}
use ccbroker.Ccb.Setup.Units.Cron.{cron_lines-Within}
use ccbroker.Ccb.Watch.Guard.{
  Watchers, Reach, at_first, then_step, starts, ends, nobody, start_watch, leave,
}
use ccbroker.Ccb.Examples.{world, machine}

abbrev host : Host
host = record {
  parse_url = λ s. none;
  parse_float = λ s. none;
  is_linux = true;
  has_certs = λ pem. true;
  pairs = λ cert key. true;
  exec = λ i args. true;
  make_dir = λ i p. true;
}

-- The lines of a setup on a machine that has no keychain: every default but the policy.
abbrev typed : Typed
typed = record {
  url = "https://b.example/";
  token = " tok ";
  ca_cert = "/ca.pem";
  client_cert = "/cert.pem";
  client_key = "/key.pem";
  proxy = "";
  target = "";
  path = "";
  interval = "";
  policy = "2";
  threshold = "";
  use_file = true;
  every = pos 1800;
  chosen = "account";
  limit = default_threshold;
}

typed-Valid : Valid (λ s. none) (λ s. none) false typed
unfolding trim_space
typed-Valid = record {
  url = refl;
  token = refl;
  key = λ e. refl;
  proxy = refl;
  target = refl;
  interval = refl;
  policy = refl;
  threshold = refl;
}

typed-saved :
    (ask_all host world "/a.json" (lines_of false typed []) machine).0
    ≡ saved (agent_of (λ s. none) (λ s. none) false typed) []
unfolding ask_all save_config collect ask ask_required ask_choice ask_key ask_use_file ask_target
    ask_threshold Dialog.◌>>=◌ answer write_file elapse pure ◌>>=◌ when◌then◌else◌ trim_space
    lines_of agent_of
typed-saved = refl

ask_all-Saved_example :
    lookup "/a.json" (ask_all host world "/a.json" (lines_of false typed []) machine).1.files
    ≡ some (document (object (of_dict (agent_json (agent_of (λ s. none) (λ s. none) false typed)))))
ask_all-Saved_example =
    (ask_all-Saved host world "/a.json" typed [] machine typed-Valid).1 typed-saved

run_setup_ends_example : (run_setup host world "/a.json" [] machine).0 ≢ stopped looping
run_setup_ends_example = run_setup_ends host world "/a.json" [] machine

abbrev program : List ℕ
program = codes "/opt/my ccb/\"ccb\""

abbrev config : List ℕ
config = codes "/home/u/a&b.json"

strings-launchd_plists_example :
    (strings_in (launchd_watch_plist program config (codes "/l"))
      ≡ some (
          codes "com.ccbroker.watch"
          ∷ program
          ∷ codes "watch"
          ∷ codes "-c"
          ∷ config
          ∷ codes "/l"
          ∷ codes "/l"
          ∷ []))
    × (strings_in (launchd_sync_plist program config (codes "/l") (pos 1800))
        ≡ some (
            codes "com.ccbroker.sync"
            ∷ program
            ∷ codes "sync"
            ∷ codes "-c"
            ∷ config
            ∷ codes "/l"
            ∷ codes "/l"
            ∷ []))
strings-launchd_plists_example = strings-launchd_plists program config (codes "/l") (pos 1800)

cron_lines-Within_example :
    (n : ℕ) × (step : List ℕ) × ((cron_lines program config (pos 1800)).1
      ≡ codes "*/" ++ (step ++ (codes " * * * * " ++ (program ++ (codes " sync -c " ++ config)))))
    × (read_digits step ≡ some n)
    × (1 ≤ n)
    × (n ≤ 59)
    × (n * 60 ≤ 1800)
cron_lines-Within_example = cron_lines-Within program config (pos 1800) (omega arith)

-- One watcher starts, a second one tries, and the first ends.
abbrev history : Watchers
history = leave 7 (start_watch false 8 (start_watch false 7 nobody))

abbrev reached : Reach history
reached =
    then_step (then_step (then_step at_first (starts _ false 7)) (starts _ false 8)) (ends _ 7)
