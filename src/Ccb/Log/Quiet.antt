-- ===== src/Ccb/Log/Quiet.antt =====
-- The actions of the client that leave its log as it is.
use ccbroker.Base.{
  arith, ℤ, pos, negsuc, zero, suc, ◌∷◌, [], String, ◌≡◌, refl, ◌∙◌, ℕ, Bool, true, false, Option,
  none, some, List, Dict, Ends, pure, ◌>>=◌, match_option, when◌then◌else◌, if◌then◌else◌,
}
use ccbroker.Json.{Value}
use ccbroker.Config.AgentFile.{Target, Agent}
use ccbroker.Ccb.State.{
  Content, Machine, World, Event, Act, UsageRow, ask, now, read_file, write_file, read_keychain,
  write_keychain, read_active_file, write_active_file, elapse,
}
use ccbroker.Ccb.Local.{read_at, write_at}
use ccbroker.Ccb.Rotate.{read_active, write_active, resolve_cred, switch_to, auto_select}
use ccbroker.Ccb.Identity.{Decoded, decoded, nil_map, not_json, record_account, sync_identity}
use ccbroker.Ccb.Sync.{show_account, write_status_cache, rotate}
use ccbroker.Ccb.Watch.{watch_cred, jitter}

pub record Quiet {A : Type 0} (m : Act A) : Type 0 where
  pub at : (s : Machine) → (m s).1.log ≡ s.log

module _ {A : Type 0} where
  pub Quiet-pure : (a : A) → Quiet (pure a)
  unfolding pure
  Quiet-pure a = record { at = λ s. refl }

  pub Quiet-if : (b : Bool) (m n : Act A) → Quiet m → Quiet n → Quiet (when b then m else n)
  unfolding when◌then◌else◌
  Quiet-if true m n qm qn = qm
  Quiet-if false m n qm qn = qn

  pub Quiet-match :
      {C : Type 0} (o : Option C) (m : Act A) (f : C → Act A)
      → Quiet m
      → ((c : C) → Quiet (f c))
      → Quiet (match_option o m f)
  unfolding match_option
  Quiet-match none m f qm qf = qm
  Quiet-match (some c) m f qm qf = qf c

  pub Quiet-bind :
      {B : Type 0} (m : Act B) (f : B → Act A) → Quiet m → ((b : B) → Quiet (f b)) → Quiet (m >>= f)
  unfolding ◌>>=◌
  Quiet-bind m f qm qf = record { at = λ s. (qf (m s).0).at (m s).1 ∙ qm.at s }

  -- A quiet action keeps what holds of the log.
  pub Ends-quiet :
      (P : List Event → Type 0) (m : Act A) → Quiet m → Ends (λ s. P s.log) m (λ a s. P s.log)
  Ends-quiet P m q = record { at = λ s p. rw (q.at s) p }

pub ruleset quiet_rules = (Quiet-pure, Quiet-if, Quiet-match, Quiet-bind)

log_if :
    {A : Type 0} (b : Bool) (x y : A × Machine) (log : List Event)
    → x.1.log ≡ log
    → y.1.log ≡ log
    → (if b then x else y).1.log ≡ log
log_if true x y log p q = p
log_if false x y log p q = q

module _ (w : World) where
  pub Quiet-ask : {A : Type 0} (f : ℕ → A) → Quiet (ask w f)
  unfolding ask elapse
  Quiet-ask f = record { at = λ s. refl }

  pub Quiet-now : Quiet (now w)
  unfolding now
  Quiet-now = Quiet-ask w.clock

  Quiet-read_file : (path : String) → Quiet (read_file w path)
  unfolding read_file elapse
  Quiet-read_file path = record { at = λ s. refl }

  Quiet-read_keychain : Quiet (read_keychain w)
  unfolding read_keychain elapse
  Quiet-read_keychain = record { at = λ s. refl }

  Quiet-write_file : (path : String) (c : Content) → Quiet (write_file w path c)
  unfolding write_file elapse
  Quiet-write_file path c = record { at = λ s. log_if _ _ _ s.log refl refl }

  Quiet-write_keychain : (c : Content) → Quiet (write_keychain w c)
  unfolding write_keychain elapse
  Quiet-write_keychain c = record { at = λ s. log_if _ _ _ s.log refl refl }

  Quiet-read_active_file : Quiet (read_active_file w)
  unfolding read_active_file elapse
  Quiet-read_active_file = record { at = λ s. refl }

  Quiet-write_active_file : (text : String) → Quiet (write_active_file w text)
  unfolding write_active_file elapse
  Quiet-write_active_file text = record { at = λ s. log_if _ _ _ s.log refl refl }

  pub Quiet-read_at : (t : Target) → Quiet (read_at w t)
  unfolding read_at
  Quiet-read_at t = search (quiet_rules, Quiet-read_file, Quiet-read_keychain)

  pub Quiet-write_at : (t : Target) (c : Content) → Quiet (write_at w t c)
  unfolding write_at
  Quiet-write_at t c = search (quiet_rules, Quiet-write_file, Quiet-write_keychain)

  Quiet-read_active : Quiet (read_active w)
  unfolding read_active
  Quiet-read_active = search (quiet_rules, Quiet-read_active_file)

  pub Quiet-resolve_cred : (cred : String) → Quiet (resolve_cred w cred)
  unfolding resolve_cred
  Quiet-resolve_cred cred = search (quiet_rules, Quiet-read_active)

  pub Quiet-watch_cred : (ts : List Target) → Quiet (watch_cred w ts)
  unfolding watch_cred
  Quiet-watch_cred [] = Quiet-pure ""
  Quiet-watch_cred (t ∷ ts) =
      Quiet-bind _ _ (Quiet-resolve_cred t.cred)
        λ found. Quiet-match found _ _ (Quiet-watch_cred ts) Quiet-pure

  Quiet-switch_to : (active best : String) → Quiet (switch_to w active best)
  unfolding switch_to write_active
  Quiet-switch_to active best = search (quiet_rules, Quiet-write_active_file)

  Quiet-auto_select :
      (cfg : Agent) (rows : List UsageRow) (policy : String) → Quiet (auto_select w cfg rows policy)
  unfolding auto_select
  Quiet-auto_select cfg rows policy =
      search (quiet_rules, Quiet-now, Quiet-read_active, Quiet-switch_to)

  pub Quiet-rotate :
      (cfg : Agent) (force_auto : Bool) (rows : List UsageRow)
      → Quiet (rotate w cfg force_auto rows)
  unfolding rotate
  Quiet-rotate cfg force_auto rows = search (quiet_rules, Quiet-auto_select)

  pub Quiet-write_status_cache : (rows : List UsageRow) → Quiet (write_status_cache w rows)
  unfolding write_status_cache now ask elapse
  Quiet-write_status_cache rows = record { at = λ s. ground arith }

  Quiet-record_account :
      (path : String) (acct : Dict Value) (d : Decoded) → Quiet (record_account w path acct d)
  unfolding record_account
  Quiet-record_account path acct not_json = search quiet_rules
  Quiet-record_account path acct nil_map = search quiet_rules
  Quiet-record_account path acct (decoded m) = search (quiet_rules, Quiet-write_file)

  Quiet-sync_identity : (path : String) (acct : Dict Value) → Quiet (sync_identity w path acct)
  unfolding sync_identity
  Quiet-sync_identity path acct = search (quiet_rules, Quiet-read_file, Quiet-record_account)

  pub Quiet-show_account : (t : Target) (acct : Option (Dict Value)) → Quiet (show_account w t acct)
  unfolding show_account
  Quiet-show_account t none = search quiet_rules
  Quiet-show_account t (some acct) = search (quiet_rules, Quiet-sync_identity)

  pub Quiet-jitter : (d : ℤ) → Quiet (jitter w d)
  unfolding jitter
  Quiet-jitter (negsuc n) = search quiet_rules
  Quiet-jitter (pos zero) = search quiet_rules
  Quiet-jitter (pos (suc n)) = search (quiet_rules, Quiet-ask)
