-- ===== src/Ccb/State.antt =====
-- What cmd/ccb/main.go works on: the files and the keychain item of one machine, and the answers of
-- the broker.
--
-- A file's content is told apart by how encoding/json reads it, and what the client marshals is a
-- `document`. The file of the active account and the status cache are kept by themselves. `World`
-- answers what the code does not compute; each of its answers is indexed by a counter that every
-- question raises. Other programs (a `/login` above all) act at every question.
use ccbroker.Base.{
  ℕ, suc, String, ◌==◌, Bool, true, false, Option, none, some, List, ◌∷◌, ℤ, Dict, lookup, insert,
  Action, if◌then◌else◌, not, ◌||◌,
}
use ccbroker.Json.{Value}
use ccbroker.Anthropic.{Usage}
use ccbroker.Config.AgentFile.{Target, Agent}

-- `trailing` is a JSON value with more text behind it, and whether that starts with a closing bracket;
-- `plain` is any text that does not start with a value.
pub data Content : Type 0 where
  document : Value → Content
  trailing : Value → Bool → Content
  blank : Content
  plain : String → Content

-- usageRow
pub record UsageRow : Type 0 where
  pub name : String
  pub account : String
  pub dead : Bool
  pub health : String
  pub expires_at : ℤ
  pub usage : Option Usage
  pub oauth_account : Option (Dict Value)
  pub usage_fetched_at : ℤ
  pub usage_error : String

-- The requests to the broker.
pub data Request : Type 0 where
  offer : Dict Value → Request
  get_credential : String → Bool → Request
  get_usage : Request
  poll : String → ℤ → ℤ → Request

pub record Response : Type 0 where
  pub status : ℕ
  -- X-Ccb-Gen
  pub gen_header : String
  -- the body as encoding/json reads it, `none` if it is not JSON
  pub json : Option Value

-- `none`: http.NewRequest or http.Client.Do gave an error.
abbrev pub Answer : Type 0
Answer = Option Response

pub data Event : Type 0 where
  call : Request → Answer → Event
  read_target : Target → Option Content → Event
  wrote_target : Target → Content → Event
  slept : ℤ → Event

-- `log` has the newest event first.
pub record Machine : Type 0 where
  pub files : Dict Content
  pub keychain : Option Content
  -- the regular files that are read as bytes
  pub scripts : Dict (List ℕ)
  pub active : Option String
  pub status_cache : Option (ℕ × List UsageRow)
  pub asked : ℕ
  pub log : List Event

pub record World : Type 0 where
  -- os.UserHomeDir, filepath.Join of two names, filepath.Dir
  pub home : Option String
  pub join_path : String → String → String
  pub dir_path : String → String
  pub is_darwin : Bool
  -- filepath.Base, resolveSymlink, and resolveExe
  pub base_path : String → String
  pub real_path : String → String
  pub exe : Option String
  -- whether a read gives an error other than a missing file or item, and whether a write succeeds
  pub read_fails : ℕ → Bool
  pub writes : ℕ → Bool
  -- what a failed os.WriteFile leaves in the file of the active account, and in another file
  pub torn : ℕ → Option String → Option String
  pub torn_file : ℕ → Content → Content
  -- time.Now()
  pub clock : ℕ → ℕ
  pub answer : ℕ → Request → Answer
  pub others : ℕ → Machine → Machine
  -- ctx.Err() is not nil; config.LoadAgent of the config file; rand.Int63n
  pub cancelled : ℕ → Bool
  pub reload : ℕ → Option Agent
  pub random : ℕ → ℕ → ℕ
  -- sort.Slice, by name
  pub sort_rows : List UsageRow → List UsageRow

abbrev pub Act : Type 0 → Type 0
Act A = Action Machine A

module _ (w : World) where
  -- The other programs act, which leaves the client's own log.
  unfoldable pub elapse : Machine → Machine
  elapse s = record (w.others s.asked s) { asked = suc s.asked; log = s.log }

  -- one answer of the world
  unfoldable pub ask : {A : Type 0} → (ℕ → A) → Act A
  ask f s = (f s.asked, elapse s)

  unfoldable pub now : Act ℕ
  now = ask w.clock

  -- sleepCtx, for so many nanoseconds: whether it was cancelled
  unfoldable pub sleep : ℤ → Act Bool
  sleep d s = (w.cancelled s.asked, record (elapse s) { log = slept d ∷ s.log })

  unfoldable pub http : Request → Act Answer
  http req s = let a = w.answer s.asked req in (a, record (elapse s) { log = call req a ∷ s.log })

  -- os.ReadFile: `none` is an error, `some none` a file that is not there.
  unfoldable pub read_file : String → Act (Option (Option Content))
  read_file path s =
      let s' = elapse s in (if w.read_fails s.asked then none else some (lookup path s'.files), s')

  -- writeFileMode, less the mode: the file is replaced as a whole, or stays
  unfoldable pub write_file : String → Content → Act Bool
  write_file path c s =
      let s' = elapse s in
      if path == "" || not (w.writes s.asked)
      then (false, s')
      else (true, record s' { files = insert path c s'.files })

  -- os.ReadFile of a script, `none` for any error, and writeFileMode of it
  unfoldable pub read_script : String → Act (Option (List ℕ))
  read_script path s =
      let s' = elapse s in (if w.read_fails s.asked then none else lookup path s'.scripts, s')

  unfoldable pub write_script : String → List ℕ → Act Bool
  write_script path bytes s =
      let s' = elapse s in
      if path == "" || not (w.writes s.asked)
      then (false, s')
      else (true, record s' { scripts = insert path bytes s'.scripts })

  -- os.WriteFile on the file of the active account, which is no atomic write
  unfoldable pub write_active_file : String → Act Bool
  write_active_file text s =
      let s' = elapse s in
      if w.writes s.asked
      then (true, record s' { active = some text })
      else (false, record s' { active = w.torn s.asked s'.active })

  -- os.WriteFile, which is no atomic write either
  unfoldable pub overwrite_file : String → Content → Act Bool
  overwrite_file path c s =
      let s' = elapse s in
      if w.writes s.asked
      then (true, record s' { files = insert path c s'.files })
      else (false, record s' { files = insert path (w.torn_file s.asked c) s'.files })

  unfoldable pub read_active_file : Act (Option String)
  read_active_file s = let s' = elapse s in (if w.read_fails s.asked then none else s'.active, s')

  -- readKeychain, where the error that says that there is no item is no error
  unfoldable pub read_keychain : Act (Option (Option Content))
  read_keychain s =
      let s' = elapse s in
      (if not w.is_darwin || w.read_fails s.asked then none else some s'.keychain, s')

  -- writeKeychain
  unfoldable pub write_keychain : Content → Act Bool
  write_keychain c s =
      let s' = elapse s in
      if not w.is_darwin || not (w.writes s.asked)
      then (false, s')
      else (true, record s' { keychain = some c })

abbrev pub note : Event → Machine → Machine
note e s = record s { log = e ∷ s.log }
