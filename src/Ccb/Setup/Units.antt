-- ===== src/Ccb/Setup/Units.antt =====
-- The scheduler units that `ccb setup` installs (cmd/ccb/setup.go: launchdWatchPlist,
-- launchdSyncPlist, systemdQuote, systemdWatchService, systemdSyncUnits, cronLines), as bytes.
mod Words
pub mod Plist
pub mod Cron
use ccbroker.Base.{
  ℕ, zero, suc, ◌+◌, ◌/◌, ◌%◌, String, Bool, List, [], ◌∷◌, ◌++◌, ℤ, pos, negsuc, quot, ltb, ltb_ℤ,
  eqb, codes, if◌then◌else◌,
}

-- The lines of a text, each ended by a newline.
abbrev pub text_of : List (List ℕ) → List ℕ
text_of [] = []
text_of (l ∷ ls) = l ++ 10 ∷ text_of ls

-- %d
abbrev digits_of : ℕ → ℕ → List ℕ
digits_of zero n = []
digits_of (suc f) n =
    let more = digits_of f (n / 10) ++ (48 + n % 10) ∷ [] in
    if ltb n 10 then (48 + n) ∷ [] else more

unfoldable pub decimal : ℤ → List ℕ
decimal (pos n) = digits_of (suc n) n
decimal (negsuc n) = b'-' ∷ digits_of (suc (suc n)) (suc n)

-- strings.ReplaceAll of one byte
abbrev pub replace : ℕ → List ℕ → List ℕ → List ℕ
replace old new [] = []
replace old new (c ∷ cs) = (if eqb c old then new else c ∷ []) ++ replace old new cs

-- systemdQuote
unfoldable pub systemd_quote : List ℕ → List ℕ
systemd_quote s =
    b'"' ∷ replace b'"' (b'\\' ∷ b'"' ∷ []) (replace b'\\' (b'\\' ∷ b'\\' ∷ []) s) ++ b'"' ∷ []

-- What ExecStart= holds.
unfoldable pub exec_start : List ℕ → String → List ℕ → List ℕ
exec_start exe cmd cfg_path =
    systemd_quote exe ++ (codes " " ++ (codes cmd ++ (codes " -c " ++ systemd_quote cfg_path)))

abbrev append_output : List (List ℕ)
append_output =
    codes "StandardOutput=append:%h/.config/ccbroker/agent.log"
    ∷ codes "StandardError=append:%h/.config/ccbroker/agent.log"
    ∷ []

-- systemdWatchService
unfoldable pub systemd_watch_service : List ℕ → List ℕ → List ℕ
systemd_watch_service exe cfg_path = text_of (
    codes "[Unit]"
    ∷ codes "Description=ccbroker credential watch daemon"
    ∷ codes "After=network-online.target"
    ∷ codes "Wants=network-online.target"
    ∷ []
    ∷ codes "[Service]"
    ∷ (codes "ExecStart=" ++ exec_start exe "watch" cfg_path)
    ∷ codes "Restart=always"
    ∷ codes "RestartSec=5"
    ∷ (append_output ++ [] ∷ codes "[Install]" ∷ codes "WantedBy=default.target" ∷ []))

-- systemdSyncUnits
unfoldable pub systemd_sync_service : List ℕ → List ℕ → List ℕ
systemd_sync_service exe cfg_path = text_of (
    codes "[Unit]"
    ∷ codes "Description=ccbroker credential sync watchdog"
    ∷ []
    ∷ codes "[Service]"
    ∷ codes "Type=oneshot"
    ∷ (codes "ExecStart=" ++ exec_start exe "sync" cfg_path)
    ∷ append_output)

unfoldable pub systemd_sync_timer : ℤ → List ℕ
systemd_sync_timer interval = text_of (
    codes "[Unit]"
    ∷ codes "Description=ccbroker credential sync watchdog timer"
    ∷ []
    ∷ codes "[Timer]"
    ∷ codes "OnBootSec=60"
    ∷ (codes "OnUnitActiveSec=" ++ decimal interval)
    ∷ codes "Persistent=true"
    ∷ []
    ∷ codes "[Install]"
    ∷ codes "WantedBy=timers.target"
    ∷ [])

abbrev entity : ℕ → List ℕ
entity c =
    if eqb c b'&'
    then codes "&amp;"
    else if eqb c b'<'
    then codes "&lt;"
    else if eqb c b'>'
    then codes "&gt;"
    else if eqb c b'"'
    then codes "&quot;"
    else if eqb c 39
    then codes "&apos;"
    else c ∷ []

-- xmlEscaper.Replace
unfoldable pub xml_escape : List ℕ → List ℕ
xml_escape [] = []
xml_escape (c ∷ cs) = entity c ++ xml_escape cs

-- The elements of the property lists, with what is put into them.
abbrev string_element : List ℕ → List ℕ
string_element s = codes "<string>" ++ (xml_escape s ++ codes "</string>")

abbrev plist_head : String → List (List ℕ)
plist_head label =
    codes "<?xml version=\"1.0\" encoding=\"UTF-8\"?>"
    ∷ (codes "<!DOCTYPE plist PUBLIC \"-//Apple//DTD PLIST 1.0//EN\" "
        ++ codes "\"http://www.apple.com/DTDs/PropertyList-1.0.dtd\">")
    ∷ codes "<plist version=\"1.0\">"
    ∷ codes "<dict>"
    ∷ codes "\t<key>Label</key>"
    ∷ (codes "\t<string>" ++ (codes label ++ codes "</string>"))
    ∷ []

abbrev plist_arguments : List ℕ → String → List ℕ → List (List ℕ)
plist_arguments exe cmd cfg_path =
    codes "\t<key>ProgramArguments</key>"
    ∷ codes "\t<array>"
    ∷ (codes "\t\t" ++ string_element exe)
    ∷ (codes "\t\t<string>" ++ (codes cmd ++ codes "</string>"))
    ∷ codes "\t\t<string>-c</string>"
    ∷ (codes "\t\t" ++ string_element cfg_path)
    ∷ codes "\t</array>"
    ∷ []

abbrev plist_tail : List ℕ → List (List ℕ)
plist_tail log_path =
    codes "\t<key>RunAtLoad</key>"
    ∷ codes "\t<true/>"
    ∷ codes "\t<key>StandardOutPath</key>"
    ∷ (codes "\t" ++ string_element log_path)
    ∷ codes "\t<key>StandardErrorPath</key>"
    ∷ (codes "\t" ++ string_element log_path)
    ∷ codes "</dict>"
    ∷ codes "</plist>"
    ∷ []

-- launchdWatchPlist
unfoldable pub launchd_watch_plist : List ℕ → List ℕ → List ℕ → List ℕ
launchd_watch_plist exe cfg_path log_path = text_of (
    plist_head "com.ccbroker.watch"
    ++ (plist_arguments exe "watch" cfg_path
        ++ (codes "\t<key>KeepAlive</key>" ∷ codes "\t<true/>" ∷ plist_tail log_path)))

-- launchdSyncPlist
unfoldable pub launchd_sync_plist : List ℕ → List ℕ → List ℕ → ℤ → List ℕ
launchd_sync_plist exe cfg_path log_path interval = text_of (
    plist_head "com.ccbroker.sync"
    ++ (plist_arguments exe "sync" cfg_path
        ++ (codes "\t<key>StartInterval</key>"
            ∷ (codes "\t<integer>" ++ (decimal interval ++ codes "</integer>"))
            ∷ plist_tail log_path)))

-- The minutes between two runs of the watchdog by cron.
unfoldable pub cron_minutes : ℤ → ℤ
cron_minutes interval =
    let mins = quot interval 60 in
    if ltb_ℤ mins (pos 1) then pos 1 else if ltb_ℤ (pos 59) mins then pos 59 else mins

-- cronLines
unfoldable pub cron_lines : List ℕ → List ℕ → ℤ → List ℕ × List ℕ
cron_lines exe cfg_path interval = (
  codes "*/5 * * * * " ++ (exe ++ (codes " ensure-alive -c " ++ cfg_path)),
  codes "*/"
      ++ (decimal (cron_minutes interval)
          ++ (codes " * * * * " ++ (exe ++ (codes " sync -c " ++ cfg_path)))),
)
