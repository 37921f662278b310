-- ===== src/Server/Keeps/Managing.antt =====
-- The admin API (Server/Admin.antt) keeps what `Guards` guards; a deletion only where that is shown.
use ccbroker.Base.{String, ◌≡◌, refl, Option, none, some, List, Dict}
use ccbroker.Json.{Value}
use ccbroker.Creds.{Record, access_token}
use ccbroker.Anthropic.{Fetched, fetched, failed}
use ccbroker.Server.State.{Env}
use ccbroker.Server.Gen.{stored}
use ccbroker.Server.Offer.{Parsed, parsed}
use ccbroker.Server.Admin.{
  Method, method_get, method_put, method_post, method_delete, admin_list, ring_after, import_record,
  import_profiled, import_parsed, admin_put, refresh_now, admin_refresh, admin_delete, admin_method,
  refresh_method, list_method, admin_routed, handle_admin, handle_usage,
}
use ccbroker.Server.Keeps.{
  Keeps, Shared, Holds, Guards, Reads, guard_rules, Keeps-bind, Keeps-bind_read, Keeps-lock,
  Keeps-now, Keeps-stored, stored-Reads, Keeps-commit,
}
use ccbroker.Server.Keeps.Refreshing.{do_refresh-Keeps}

module _ {env : Env} {Q : Shared} {G : List String → Type 0} (k : Guards env Q G) where
  ring_after-guarded : (o : Option Record) → Reads G o → G (ring_after env.sha256hex o)
  ring_after-guarded none h = k.fresh_ring
  ring_after-guarded (some r) h = k.retire r.retired_hashes (env.sha256hex (access_token r)) h

  import_record-Keeps :
      (name email uuid : String) (oauth : Dict Value)
      → Keeps (Holds Q) (import_record env name email uuid oauth)
  unfolding import_record
  import_record-Keeps name email uuid oauth = Keeps-bind _ _ (Keeps-lock k) λ _.
      Keeps-bind _ _ (Keeps-now k) λ since.
        Keeps-bind_read (stored name) _ (Reads G) (Keeps-stored k name) (stored-Reads k name)
          λ cur h.
            Keeps-bind _ _ (Keeps-commit k _ (ring_after-guarded cur h)) (λ w. search guard_rules)

  profiled-Keeps :
      (name : String) (oauth : Dict Value) (f : Fetched (Dict Value))
      → Keeps (Holds Q) (import_profiled env name oauth f)
  unfolding import_profiled
  profiled-Keeps name oauth (failed e) = search guard_rules
  profiled-Keeps name oauth (fetched acct) = search (guard_rules, import_record-Keeps) depth 14

  parsed-Keeps : (name : String) (p : Parsed) → Keeps (Holds Q) (import_parsed env name p)
  unfolding import_parsed
  parsed-Keeps name (parsed oauth) = search (guard_rules, profiled-Keeps) depth 14
  parsed-Keeps name _ = search guard_rules

  admin_put-Keeps :
      (name : String) (body : Option Value) → Keeps (Holds Q) (admin_put env name body)
  unfolding admin_put
  admin_put-Keeps name body = search (guard_rules, parsed-Keeps) depth 14

  admin_refresh-Keeps : (name : String) → Keeps (Holds Q) (admin_refresh env name)
  unfolding admin_refresh refresh_now
  admin_refresh-Keeps name = search (guard_rules, do_refresh-Keeps) depth 14

  -- What is asked of a DELETE.
  abbrev pub Removes : Method → Type 0
  Removes m = m ≡ method_delete → (name : String) → Keeps (Holds Q) (admin_delete env name)

  method-Keeps :
      (m : Method) (name : String) (body : Option Value)
      → Removes m
      → Keeps (Holds Q) (admin_method env m name body)
  unfolding admin_method
  method-Keeps method_put name body h = admin_put-Keeps name body
  method-Keeps method_delete name body h = h refl name
  method-Keeps _ name body h = search guard_rules

  refresh_method-Keeps : (m : Method) (name : String) → Keeps (Holds Q) (refresh_method env m name)
  unfolding refresh_method
  refresh_method-Keeps method_post name = admin_refresh-Keeps name
  refresh_method-Keeps _ name = search guard_rules

  list_method-Keeps : (m : Method) → Keeps (Holds Q) (list_method env m)
  unfolding list_method admin_list
  list_method-Keeps method_get = search guard_rules
  list_method-Keeps _ = search guard_rules

  routed-Keeps :
      (m : Method) (p : String × Option String) (body : Option Value)
      → Removes m
      → Keeps (Holds Q) (admin_routed env m p body)
  unfolding admin_routed
  routed-Keeps m p body h = search (guard_rules, refresh_method-Keeps, method-Keeps) depth 14

  pub handle_admin-Keeps :
      (token : String) (m : Method) (path : String) (body : Option Value)
      → Removes m
      → Keeps (Holds Q) (handle_admin env token m path body)
  unfolding handle_admin
  handle_admin-Keeps token m path body h =
      search (guard_rules, list_method-Keeps, routed-Keeps) depth 14

  pub handle_usage-Keeps : (header : String) → Keeps (Holds Q) (handle_usage env header)
  unfolding handle_usage
  handle_usage-Keeps header = search guard_rules depth 14
