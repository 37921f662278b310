-- ===== src/Creds/Serving.antt =====
-- What a client can see of a record (creds.go), and how its health reads.
use ccbroker.Base.{String, ◌≡◌, ◌==◌, false, none, lookup, lookup-erase, if◌then◌else◌}
use ccbroker.Creds.{Record, served_oauth}

-- A served object never has the refresh token, unless the escape hatch is on, and every other
-- field is served as it is stored.
pub lookup-served_oauth :
    (r : Record) (k : String)
    → lookup k (served_oauth r false) ≡ (if "refreshToken" == k then none else lookup k r.oauth)
unfolding served_oauth
lookup-served_oauth r k = lookup-erase "refreshToken" k r.oauth

pub served_oauth_quarantine : (r : Record) → lookup "refreshToken" (served_oauth r false) ≡ none
served_oauth_quarantine r = lookup-served_oauth r "refreshToken"
