-- ===== src/Server/Admin.antt =====
-- The admin API on localhost, and the usage rows (server.go: handleAdmin, adminList, adminPut,
-- adminRefresh, handleUsage).
pub mod Imports
use ccbroker.Base.{
  ℕ, suc, String, ◌==◌, Bool, true, false, not, Option, none, some, List, [], ◌∷◌, map, ℤ, Dict,
  lookup, strip_prefix, trim_slashes, split_slash, if◌then◌else◌,
}
use ccbroker.Json.{Value, text_at}
use ccbroker.Creds.{Record, HealthState, ok, dead, health, access_token, expires_at_ms}
use ccbroker.Anthropic.{get_profile, Fetched, fetched, failed, FetchError, fetch_profile}
use ccbroker.Config.{Client}
use ccbroker.Store
use ccbroker.Server.State.{
  when◌then◌else◌, Broker, UsageEntry, Env, M, pure, gets, ◌>>=◌, ◌>>◌, match_option, now, upstream,
  lock,
}
use ccbroker.Server.Gen.{with_record, stored, commit}
use ccbroker.Server.Ring.{retire_hash}
use ccbroker.Server.Refresh.{Failure, Outcome, do_refresh}
use ccbroker.Server.Health.{is_state, usage_of}
use ccbroker.Server.Route.{managed_by}
use ccbroker.Server.Access.{auth_client, scope_allows, admin_auth}
use ccbroker.Server.GetCred.{is_bad_name}
use ccbroker.Server.Offer.{Parsed, parsed, parse_oauth}

pub data Method : Type 0 where
  method_get method_put method_post method_delete method_other : Method

-- The row of adminList.
pub record AdminRow : Type 0 where
  pub name : String
  pub account : String
  pub account_uuid : String
  pub gen : ℕ
  pub health : HealthState
  pub expires_at : ℤ
  pub is_dead : Bool
  pub updated_at : ℕ
  pub last_error : String

-- The row of handleUsage; what it has of the snapshot is empty where there is none.
pub record UsageRow : Type 0 where
  pub name : String
  pub account : String
  pub is_dead : Bool
  pub health : HealthState
  pub expires_at : ℤ
  pub snapshot : UsageEntry

pub data AdminReply : Type 0 where
  unauthorized method_not_allowed no_such bad_name bad_body missing_access commit_error : AdminReply
  listed : List AdminRow → AdminReply
  deleted : String → AdminReply
  profile_down : FetchError → AdminReply
  already_managed : String → AdminReply
  imported : Record → AdminReply
  -- 502, with whether the record is dead now
  refresh_error : Failure → Bool → AdminReply
  refreshed : Option Record → AdminReply

abbrev row_of : Record → AdminRow
row_of r = record {
  name = r.name;
  account = r.account;
  account_uuid = r.account_uuid;
  gen = r.gen;
  health = health r;
  expires_at = expires_at_ms r;
  is_dead = is_state dead r;
  updated_at = r.updated_at;
  last_error = r.last_error;
}

-- adminList
unfoldable pub admin_list : M AdminReply
admin_list = do recs ← gets (λ s. Store.list s.store); pure (listed (map row_of recs))

unfoldable pub usage_row : Broker → Record → UsageRow
usage_row s r = record {
  name = r.name;
  account = r.account;
  is_dead = is_state dead r;
  health = health r;
  expires_at = expires_at_ms r;
  snapshot = usage_of (lookup r.name s.usage);
}

-- The rows that a client's scope allows.
unfoldable pub usage_rows : Broker → Client → List Record → List UsageRow
usage_rows s client [] = []
usage_rows s client (r ∷ rest) =
    let rows = usage_rows s client rest in
    if scope_allows client r.name then usage_row s r ∷ rows else rows

-- The ring of an import: that of the record which it replaces, with its token retired.
abbrev pub ring_after : (String → String) → Option Record → List String
ring_after sha256hex none = []
ring_after sha256hex (some cur) = retire_hash cur.retired_hashes (sha256hex (access_token cur))

abbrev is_dead_now : Option Record → Bool
is_dead_now none = false
is_dead_now (some r) = is_state dead r

-- The path below /admin/creds: the name and, behind a slash, an action.
abbrev below_root : Option String → String → String
below_root none path = trim_slashes path
below_root (some rest) path = trim_slashes rest

unfoldable pub admin_path : String → String
admin_path path = below_root (strip_prefix "/admin/creds" path) path

abbrev is_refresh : Option String → Bool
is_refresh none = false
is_refresh (some action) = action == "refresh"

module _ (env : Env) where
  -- handleUsage, of the Authorization header: `none` is 401.
  unfoldable pub handle_usage : String → M (Option (List UsageRow))
  handle_usage header =
      match_option (auth_client env header) (pure none)
        (λ client. gets (λ s. some (usage_rows s client (Store.list s.store))))

  -- adminPut, from the mutex on
  unfoldable pub import_record : String → String → String → Dict Value → M AdminReply
  import_record name email uuid oauth = do
    lock env
    since ← now env
    cur ← stored name
    written ← commit env (record {
      name = name;
      account = email;
      account_uuid = uuid;
      oauth = oauth;
      gen = 0;
      health_state = ok;
      health_since = since;
      retired_hashes = ring_after env.sha256hex cur;
      updated_at = 0;
      legacy_dead = false;
      last_error = "";
    })
    when written.1 then pure (imported written.0) else pure commit_error

  unfoldable pub import_profiled : String → Dict Value → Fetched (Dict Value) → M AdminReply
  import_profiled name oauth (failed err) = pure (profile_down err)
  import_profiled name oauth (fetched acct) = do
    let email = text_at acct "emailAddress"
    let uuid = text_at acct "accountUuid"
    recs ← gets (λ s. Store.list s.store)
    match_option (managed_by name uuid email recs) (import_record name email uuid oauth)
        (λ other. pure (already_managed other))

  unfoldable pub import_parsed : String → Parsed → M AdminReply
  import_parsed name (parsed oauth) =
      when text_at oauth "accessToken" == "" then pure missing_access else do
        t ← now env
        a ← upstream env none (get_profile (text_at oauth "accessToken"))
        import_profiled name oauth (fetch_profile t a)
  import_parsed name _ = pure bad_body

  -- adminPut, of a body as encoding/json reads it
  unfoldable pub admin_put : String → Option Value → M AdminReply
  admin_put name body =
      when is_bad_name name then pure bad_name else import_parsed name (parse_oauth body)

  unfoldable pub refresh_reply : Outcome → AdminReply
  refresh_reply (rec, none) = refreshed rec
  refresh_reply (rec, some err) = refresh_error err (is_dead_now rec)

  unfoldable pub refresh_now : Record → M AdminReply
  refresh_now rec = do outcome ← do_refresh env rec; pure (refresh_reply outcome)

  -- adminRefresh
  unfoldable pub admin_refresh : String → M AdminReply
  admin_refresh name =
      with_record name (pure no_such) λ _. do lock env; with_record name (pure no_such) refresh_now

  -- store.Delete takes no credential mutex
  unfoldable pub remove : String → M (Option Bool)
  remove name s =
      let (st, done) = Store.delete (env.saves s.asked) name s.store in
      (done, record s { store = st; asked = suc s.asked })

  unfoldable pub delete_reply : String → Option Bool → AdminReply
  delete_reply name (some true) = deleted name
  delete_reply name _ = no_such

  unfoldable pub admin_delete : String → M AdminReply
  admin_delete name = do done ← remove name; pure (delete_reply name done)

  unfoldable pub admin_method : Method → String → Option Value → M AdminReply
  admin_method method_put name body = admin_put name body
  admin_method method_delete name body = admin_delete name
  admin_method _ name body = pure method_not_allowed

  unfoldable pub refresh_method : Method → String → M AdminReply
  refresh_method method_post name = admin_refresh name
  refresh_method _ name = pure method_not_allowed

  unfoldable pub list_method : Method → M AdminReply
  list_method method_get = admin_list
  list_method _ = pure method_not_allowed

  unfoldable pub admin_routed : Method → String × Option String → Option Value → M AdminReply
  admin_routed m (name, action) body =
      when is_refresh action then refresh_method m name else admin_method m name body

  -- handleAdmin, of the X-Admin-Token header, the method, the path and the body
  unfoldable pub handle_admin : String → Method → String → Option Value → M AdminReply
  handle_admin token m path body =
      when not (admin_auth env token)
      then pure unauthorized
      else when admin_path path == ""
      then list_method m
      else admin_routed m (split_slash (admin_path path)) body
