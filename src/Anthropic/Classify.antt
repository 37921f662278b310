-- ===== src/Anthropic/Classify.antt =====
-- Which failures count against a credential (AuthFailure, and Permanent of Refresh).
use ccbroker.Base.{
  String, eq_iff, ◌≡◌, refl, ◌≢◌, ◌⊎◌, true, false, Option, none, some, arith, contains, lower,
  codes,
}
use ccbroker.Anthropic.{
  Answer, Response, FetchError, network, status_error, bad_json, RefreshError, Grant, granted,
  refused, refresh, auth_failure, error_code, permanent_code, accept_grant, decode_grant,
}

-- The body names a revocation, in any letter case.
abbrev pub SaysRevoked : String → Type 0
SaysRevoked body = contains (lower (codes body)) (codes "revoked") ≡ true

-- What counts against a credential: a 401, or a 403 that says "revoked".
abbrev pub Rejects : FetchError → Type 0
Rejects e =
    (body : String) × ((e ≡ status_error 401 body)
      ⊎ ((e ≡ status_error 403 body) × SaysRevoked body))

-- An error is an auth failure only if upstream answered 401, or 403 with a body that says revoked.
pub auth_failure-Rejects : (e : FetchError) → auth_failure e ≡ true → Rejects e
unfolding auth_failure
auth_failure-Rejects network h = cc
auth_failure-Rejects bad_json h = cc
auth_failure-Rejects (status_error n body) h = (body, ground arith)

-- The codes by which the token endpoint says that a refresh token is void.
abbrev pub IsVoid : String → Type 0
IsVoid c = (c ≡ "invalid_grant") ⊎ (c ≡ "invalid_client") ⊎ (c ≡ "unauthorized_client")

pub permanent_code-IsVoid : (c : String) → permanent_code c ≡ true → IsVoid c
unfolding permanent_code
permanent_code-IsVoid c h =
    ground
      (arith, eq_iff c "invalid_grant", eq_iff c "invalid_client", eq_iff c "unauthorized_client")

accept_grant-transient :
    (r : Response) (g : Option Grant) (e : RefreshError)
    → accept_grant r g ≡ refused e
    → e.permanent ≡ false
unfolding accept_grant
accept_grant-transient r none e h = ground arith
accept_grant-transient r (some g) e h = ground arith

-- A refresh failure is permanent only if upstream answered, not with 200, and with one of the three
-- codes in its error body; no network error, no 200 with a bad body and no bare status is.
pub refresh-permanent :
    (a : Answer) (e : RefreshError)
    → refresh a ≡ refused e
    → e.permanent ≡ true
    → (r : Response) × (a ≡ some r) × (r.status ≢ 200) × IsVoid (error_code r.json)
unfolding refresh
refresh-permanent none e h p = ground arith
refresh-permanent (some r) e h p = (
  r,
  refl,
  ground (arith, accept_grant-transient r (decode_grant r.json) e),
  permanent_code-IsVoid _ (ground (arith, accept_grant-transient r (decode_grant r.json) e)),
)

accept_grant-granted :
    (r : Response) (o : Option Grant) (g : Grant)
    → accept_grant r o ≡ granted g
    → (o ≡ some g) × (g.access_token ≢ "")
unfolding accept_grant
accept_grant-granted r none g h = ground arith
accept_grant-granted r (some k) g h = ground (arith, eq_iff k.access_token "")

-- A grant comes only from a 200 whose body decodes, and always carries an access token.
pub refresh-granted :
    (a : Answer) (g : Grant)
    → refresh a ≡ granted g
    → (r : Response) × (a ≡ some r)
      × (r.status ≡ 200)
      × (decode_grant r.json ≡ some g)
      × (g.access_token ≢ "")
unfolding refresh
refresh-granted none g h = ground arith
refresh-granted (some r) g h =
    let k = accept_grant-granted r (decode_grant r.json) g (ground arith) in
    (r, refl, ground arith, k.0, k.1)
