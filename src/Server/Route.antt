-- ===== src/Server/Route.antt =====
-- Which credential an account belongs to (server.go: routeByAccount, assertUnique, the uniqueness
-- test of adminPut).
pub mod Accounts
use ccbroker.Base.{
  String, ◌==◌, Bool, not, ◌&&◌, ◌||◌, Option, none, some, List, [], ◌∷◌, Dict, lookup, insert,
  keep, if◌then◌else◌,
}
use ccbroker.Creds.{Record}

pub data Routed : Type 0 where
  matched : Record → Routed
  ambiguous_account unknown_account : Routed

-- The record has this non-empty uuid, or this non-empty email.
abbrev pub has_uuid : String → Record → Bool
has_uuid uuid r = not (uuid == "") && r.account_uuid == uuid

abbrev pub has_email : String → Record → Bool
has_email email r = not (email == "") && r.account == email

-- One match routes, several are ambiguous, and none asks the next key.
abbrev pub pick : List Record → Routed → Routed
pick [] next = next
pick (r ∷ []) next = matched r
pick (r ∷ q ∷ rest) next = ambiguous_account

-- routeByAccount, over the records of the store
unfoldable pub route_by_account : String → String → List Record → Routed
route_by_account uuid email recs =
    pick (keep (has_uuid uuid) recs) (pick (keep (has_email email) recs) unknown_account)

-- The first clash of assertUnique: the key that is taken, and the names of the two records.
pub record Clash : Type 0 where
  pub key : String
  pub holder : String
  pub name : String

abbrev clash : String → String → Option String → Option Clash
clash key name none = none
clash key name (some holder) = some (record { key = key; holder = holder; name = name })

-- What the two maps of assertUnique say of a key; an empty key is not looked up.
abbrev taken : String → String → Dict String → Option Clash
taken key name seen = if key == "" then none else clash key name (lookup key seen)

abbrev mark : String → String → Dict String → Dict String
mark key name seen = if key == "" then seen else insert key name seen

abbrev or_next : Option Clash → Option Clash → Option Clash
or_next none next = next
or_next (some c) next = some c

-- The loop of assertUnique. Both keys of a record are read before either map is extended, which
-- gives the same answers, since the two maps are apart.
unfoldable pub find_clash : Dict String → Dict String → List Record → Option Clash
find_clash by_email by_uuid [] = none
find_clash by_email by_uuid (r ∷ rest) =
    let next =
      find_clash (mark r.account r.name by_email) (mark r.account_uuid r.name by_uuid) rest in
    or_next (taken r.account r.name by_email) (or_next (taken r.account_uuid r.name by_uuid) next)

-- assertUnique
unfoldable pub assert_unique : List Record → Option Clash
assert_unique recs = find_clash [] [] recs

-- A record of another name that adminPut finds to have the account already.
abbrev pub manages : String → String → String → Record → Bool
manages name uuid email r = not (r.name == name) && (has_email email r || has_uuid uuid r)

unfoldable pub managed_by : String → String → String → List Record → Option String
managed_by name uuid email [] = none
managed_by name uuid email (r ∷ rest) =
    if manages name uuid email r then some r.name else managed_by name uuid email rest
