-- ===== src/Server/Calls/Kept.antt =====
-- A guarded property goes through every call, and through every history of calls.
use ccbroker.Base.{ℕ, String, ◌≡◌, ◌⊎◌, inl, inr, Option, List, [], ◌∷◌}
use ccbroker.Json.{Value}
use ccbroker.Server.State.{Broker, Env}
use ccbroker.Server.Admin.{Method, method_delete, admin_delete}
use ccbroker.Server.Keeps.{Keeps, Shared, Holds, Guards}
use ccbroker.Server.Keeps.Refreshing.{refresh_due-Keeps}
use ccbroker.Server.Keeps.Polling.{poll-Keeps}
use ccbroker.Server.Keeps.Serving.{handle_get_cred-Keeps}
use ccbroker.Server.Keeps.Offering.{handle_offer-Keeps}
use ccbroker.Server.Keeps.Managing.{handle_admin-Keeps, handle_usage-Keeps}
use ccbroker.Server.Calls.{Call, get_cred, offer, usage, admin, refresh_tick, poll_tick, step, run}

-- No DELETE of the admin API.
abbrev pub NoDelete : Call → Type 0
NoDelete (admin token method_delete path body) = ⊥
NoDelete (admin token _ path body) = Unit
NoDelete _ = Unit

abbrev pub AllNoDelete : List Call → Type 0
AllNoDelete [] = Unit
AllNoDelete (c ∷ cs) = NoDelete c × AllNoDelete cs

-- The other goroutines keep the property, at every moment that a handler waits.
pub record Rely (env : Env) (Q : Shared) : Type 0 where
  pub others : (i : ℕ) (s : Broker) → Holds Q s → Holds Q (env.others i s)
  pub beside :
      (i : ℕ) (name : String) (s : Broker) → Holds Q s → Holds Q (env.others_beside i name s)

module _ {env : Env} {Q : Shared} {G : List String → Type 0} (k : Guards env Q G) where
  abbrev Deletes : Type 0
  Deletes = (name : String) → Keeps (Holds Q) (admin_delete env name)

  removes :
      (token path : String) (m : Method) (body : Option Value)
      → NoDelete (admin token m path body) ⊎ Deletes
      → m ≡ method_delete
      → Deletes
  removes token path method_delete body (inr d) e = d
  removes token path method_delete body (inl n) e = absurd n
  removes token path _ body n e = cc

  pub step-kept :
      (c : Call) (s : Broker) → NoDelete c ⊎ Deletes → Holds Q s → Holds Q (step env c s)
  unfolding step
  step-kept (get_cred req) s n h = (handle_get_cred-Keeps k req).at s h
  step-kept (offer req) s n h = (handle_offer-Keeps k req).at s h
  step-kept (usage header) s n h = (handle_usage-Keeps k header).at s h
  step-kept (admin token m path body) s n h =
      (handle_admin-Keeps k token m path body (removes token path m body n)).at s h
  step-kept refresh_tick s n h = (refresh_due-Keeps k).at s h
  step-kept poll_tick s n h = (poll-Keeps k).at s h

  -- A history without a DELETE.
  pub run-kept : (cs : List Call) (s : Broker) → AllNoDelete cs → Holds Q s → Holds Q (run env cs s)
  unfolding run
  run-kept [] s n h = h
  run-kept (c ∷ cs) s n h = run-kept cs (step env c s) n.1 (step-kept c s (inl n.0) h)

  -- Any history, where a DELETE keeps the property too.
  pub run-kept_all : Deletes → (cs : List Call) (s : Broker) → Holds Q s → Holds Q (run env cs s)
  unfolding run
  run-kept_all d [] s h = h
  run-kept_all d (c ∷ cs) s h = run-kept_all d cs (step env c s) (step-kept c s (inr d) h)
