-- ===== src/Server/Admin/Imports.antt =====
-- What an import must pass (adminPut of server.go).
use ccbroker.Base.{String, ◌≡◌, ◌≢◌, ap, ◌∙◌, false, none, arith, List, [], ◌∷◌, Dict, eq_iff}
use mathlib.Core.List.{Memᴰ}
use ccbroker.Json.{Value, text_at}
use ccbroker.Creds.{Record}
use ccbroker.Anthropic.{Fetched, fetched, fetch_profile, get_profile}
use ccbroker.Store
use ccbroker.Server.State.{Broker, Env, now, upstream}
use ccbroker.Server.Route.{managed_by, manages, has_email, has_uuid}

-- Where no other record manages the account, every record of another name has another account.
pub managed_by-none :
    (name uuid email : String) (recs : List Record) (r : Record)
    → managed_by name uuid email recs ≡ none
    → Memᴰ r recs
    → r.name ≢ name
    → (has_email email r ≡ false) × (has_uuid uuid r ≡ false)
unfolding managed_by
managed_by-none name uuid email [] r h m ne = elim m [ ]
managed_by-none name uuid email (x ∷ rest) r h (Memᴰ.tail m) ne =
    managed_by-none name uuid email rest r (ground arith) m ne
managed_by-none name uuid email (x ∷ rest) r h (Memᴰ.head e) ne =
    let own : manages name uuid email r ≡ false = ap (manages name uuid email) e ∙ ground arith in
    ground (arith, own, eq_iff r.name name)

module _ (env : Env) where
  -- The state after the profile was fetched, and what was fetched.
  abbrev pub profile_at : Dict Value → Broker → Broker × Fetched (Dict Value)
  profile_at oauth s =
      let (t, s1) = now env s in
      let (a, s2) = upstream env none (get_profile (text_at oauth "accessToken")) s1 in
      (s2, fetch_profile t a)

  -- The profile endpoint accepted the token, the record is the one of that account with these
  -- tokens, and every stored record of another name has another account.
  abbrev pub Verified : Dict Value → Record → Fetched (Dict Value) → List Record → Type 0
  Verified oauth new f recs =
      (acct : Dict Value) × (f ≡ fetched acct)
      × (new.oauth ≡ oauth)
      × (new.account ≡ text_at acct "emailAddress")
      × (new.account_uuid ≡ text_at acct "accountUuid")
      × ((r : Record)
          → Memᴰ r recs
          → r.name ≢ new.name
          → (has_email (text_at acct "emailAddress") r ≡ false)
            × (has_uuid (text_at acct "accountUuid") r ≡ false))
