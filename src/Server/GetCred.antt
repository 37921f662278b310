-- ===== src/Server/GetCred.antt =====
-- GET /v1/credentials/{name} (server.go: handleGetCred). Audit lines and write deadlines are output
-- only, and are left out.
pub mod Served
use ccbroker.Base.{
  ℕ, ◌-◌, ◌^◌, String, ◌==◌, eqb, Bool, true, false, not, ◌&&◌, ◌||◌, Option, none, some, List, [],
  ◌∷◌, ℤ, pos, negsuc, ltb_ℤ, leb_ℤ, leb, ltb, Dict, codes, read_digits, strip_prefix,
  has_separator, if◌then◌else◌,
}
use ccbroker.Json.{Value}
use ccbroker.Creds.{Record, ok, expires_at_ms, served_oauth}
use ccbroker.Config.{Client}
use ccbroker.Server.State.{when◌then◌else◌, Env, M, pure, ◌>>=◌, ◌>>◌, match_option, now}
use ccbroker.Server.Gen.{with_record, wait_for_gen}
use ccbroker.Server.Refresh.{Failure, not_exist, Outcome, is_ok, ensure_fresh}
use ccbroker.Server.Health.{transition_health, probe_cred}
use ccbroker.Server.Access.{auth_client, scope_allows}

-- The parts of the request that are read; a query value is `none` where its key is absent.
pub record CredRequest : Type 0 where
  pub path : String
  pub authorization : String
  pub probe : Option String
  pub since_gen : Option String
  pub wait_sec : Option String

-- The "probeLive" key is there only if a probe was asked for.
pub record Envelope : Type 0 where
  pub oauth : Dict Value
  pub gen : ℕ
  pub account : String
  pub probe_live : Option Bool

pub data CredReply : Type 0 where
  unauthorized bad_name forbidden no_such unavailable : CredReply
  not_modified unhealthy expired : ℕ → CredReply
  served : Envelope → CredReply

-- The HTTP status of a reply.
unfoldable pub status_code : CredReply → ℕ
status_code unauthorized = 401
status_code bad_name = 400
status_code forbidden = 403
status_code no_such = 404
status_code unavailable = 503
status_code (not_modified gen) = 304
status_code (unhealthy gen) = 409
status_code (expired gen) = 503
status_code (served env) = 200

-- int64's range: a number beyond it is read as the nearest bound, with an error that is ignored.
abbrev positive : Option ℕ → ℤ
positive none = pos 0
positive (some n) = if ltb n (2 ^ 63) then pos n else pos (2 ^ 63 - 1)

abbrev minus : ℕ → ℤ
minus n = if eqb n 0 then pos 0 else negsuc (n - 1)

abbrev negative : Option ℕ → ℤ
negative none = pos 0
negative (some n) = if leb n (2 ^ 63) then minus n else minus (2 ^ 63)

signed : List ℕ → ℤ
signed [] = pos 0
signed (c ∷ cs) =
    if eqb c b'-'
    then negative (read_digits cs)
    else if eqb c b'+'
    then positive (read_digits cs)
    else positive (read_digits (c ∷ cs))

-- n, _ := strconv.ParseInt(q.Get(key), 10, 64)
unfoldable pub parse_int : Option String → ℤ
unfolding signed
parse_int none = pos 0
parse_int (some s) = signed (codes s)

-- waitSec, clamped to 25
unfoldable pub clamp_wait : ℤ → ℤ
clamp_wait n = if ltb_ℤ (pos 25) n then pos 25 else n

abbrev is_one : Option String → Bool
is_one none = false
is_one (some s) = s == "1"

abbrev given : Option String → Bool
given none = false
given (some s) = true

abbrev without_prefix : String → Option String → String
without_prefix path none = path
without_prefix path (some rest) = rest

-- strings.TrimPrefix(r.URL.Path, "/v1/credentials/")
unfoldable pub cred_name : String → String
cred_name path = without_prefix path (strip_prefix "/v1/credentials/" path)

-- name == "" || strings.ContainsAny(name, "/?")
abbrev pub is_bad_name : String → Bool
is_bad_name name = name == "" || has_separator name

unfoldable pub asks_to_wait : CredRequest → Bool
unfolding parse_int clamp_wait
asks_to_wait r = given r.since_gen || ltb_ℤ (pos 0) (clamp_wait (parse_int r.wait_sec))

module _ (env : Env) where
  -- The last checks, and the body: `live` is the probe's answer, if one was asked for.
  unfoldable pub serve : Record → Bool → Option Bool → M CredReply
  serve snap healthy live = when not healthy then pure (unhealthy snap.gen) else do
    t ← now env
    when leb_ℤ (expires_at_ms snap) (pos t)
        then pure (expired snap.gen)
        else pure (
            served (record {
              oauth = served_oauth snap env.cfg.serve_refresh_token;
              gen = snap.gen;
              account = snap.account;
              probe_live = live;
            }))

  -- After the probe: a live token clears suspect or dead, and is served.
  unfoldable pub serve_probed : String → Record → Bool → M CredReply
  serve_probed name snap live =
      when live && not (is_ok snap)
      then (do transition_health env name ok snap.gen; serve snap true (some live))
      else serve snap (is_ok snap) (some live)

  unfoldable pub serve_snapshot : Bool → String → Record → M CredReply
  serve_snapshot probe name snap =
      when probe
      then (do live ← probe_cred env snap; serve_probed name snap live)
      else serve snap (is_ok snap) none

  unfoldable pub no_record : Option Failure → M CredReply
  no_record (some not_exist) = pure no_such
  no_record _ = pure unavailable

  unfoldable pub answer_fresh : Bool → String → Outcome → M CredReply
  answer_fresh probe name (none, err) = no_record err
  answer_fresh probe name (some rec, err) = serve_snapshot probe name rec

  -- From ensureFresh on.
  unfoldable pub get_fresh : Bool → String → M CredReply
  get_fresh probe name = do fresh ← ensure_fresh env name; answer_fresh probe name fresh

  unfoldable pub long_poll : CredRequest → String → M CredReply
  long_poll req name = with_record name (pure no_such) λ _. do
    woken ← wait_for_gen env name (parse_int req.since_gen)
    when woken.1 then get_fresh (is_one req.probe) name else pure (not_modified woken.0)

  -- A request of a client, with its credential's name.
  unfoldable pub get_as : CredRequest → String → Client → M CredReply
  get_as req name client =
      when is_bad_name name
      then pure bad_name
      else when not (scope_allows client name)
      then pure forbidden
      else when asks_to_wait req
      then long_poll req name
      else get_fresh (is_one req.probe) name

  -- handleGetCred
  unfoldable pub handle_get_cred : CredRequest → M CredReply
  handle_get_cred req =
      match_option (auth_client env req.authorization) (pure unauthorized)
        (get_as req (cred_name req.path))
