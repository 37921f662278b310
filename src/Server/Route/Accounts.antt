-- ===== src/Server/Route/Accounts.antt =====
-- Which record an offer's account routes to (routeByAccount), and what the uniqueness of the accounts
-- (assertUnique) gives for it.
use ccbroker.Base.{
  ℕ, String, ◌≡◌, refl, sym, ◌∙◌, ◌≢◌, ◌⊎◌, inl, inr, Bool, true, false, Option, none, some, List,
  [], ◌∷◌, length, keep, keep-head, keep-sole, Bool-cases, eq_iff, ◌==◌, arith, if◌then◌else◌, ◌≤◌,
  ◌+◌, Dict, lookup, lookup-insert,
}
use mathlib.Core.List.{Memᴰ}
use ccbroker.Creds.{Record}
use ccbroker.Server.Route.{
  matched, ambiguous_account, unknown_account, has_uuid, has_email, pick, route_by_account, Clash,
  find_clash, assert_unique, taken, mark, or_next,
}

-- How many holders of a key there may still be, with what was seen of it before.
abbrev room : Option String → ℕ
room none = 1
room (some holder) = 0

room-mark :
    (k key name : String) (d : Dict String)
    → key ≢ ""
    → taken k name d ≡ none
    → (if k == key then 1 else 0) + room (lookup key (mark k name d)) ≤ room (lookup key d)
room-mark k key name d ne h = ground (arith, eq_iff k key, eq_iff k "", lookup-insert k key name d)

clash_first :
    (a b next : Option Clash)
    → or_next a (or_next b next) ≡ none
    → (a ≡ none) × (b ≡ none) × (next ≡ none)
clash_first a b next h = ground arith

-- Where no clash is found, at most one record has a key.
uuid_holders :
    (uuid : String) (recs : List Record) (by_email by_uuid : Dict String)
    → uuid ≢ ""
    → find_clash by_email by_uuid recs ≡ none
    → length (keep (has_uuid uuid) recs) ≤ room (lookup uuid by_uuid)
unfolding find_clash
uuid_holders uuid [] by_email by_uuid ne h = omega arith
uuid_holders uuid (r ∷ rest) by_email by_uuid ne h =
    let (a, b, next) =
      clash_first (taken r.account r.name by_email) (taken r.account_uuid r.name by_uuid) _ h in
    let later = uuid_holders uuid rest _ _ ne next in
    ground (arith, later, room-mark r.account_uuid uuid r.name by_uuid ne b, eq_iff uuid "")

email_holders :
    (email : String) (recs : List Record) (by_email by_uuid : Dict String)
    → email ≢ ""
    → find_clash by_email by_uuid recs ≡ none
    → length (keep (has_email email) recs) ≤ room (lookup email by_email)
unfolding find_clash
email_holders email [] by_email by_uuid ne h = omega arith
email_holders email (r ∷ rest) by_email by_uuid ne h =
    let (a, b, next) =
      clash_first (taken r.account r.name by_email) (taken r.account_uuid r.name by_uuid) _ h in
    let later = email_holders email rest _ _ ne next in
    ground (arith, later, room-mark r.account email r.name by_email ne a, eq_iff email "")

none_held :
    (p : Record → Bool) (recs : List Record) → ((r : Record) → p r ≡ false) → keep p recs ≡ []
none_held p [] h = refl
none_held p (r ∷ rest) h = ground (arith, h r, none_held p rest h)

few_uuid :
    (uuid : String) (recs : List Record)
    → assert_unique recs ≡ none
    → length (keep (has_uuid uuid) recs) ≤ 1
unfolding assert_unique lookup
few_uuid uuid recs h = elim (Bool-cases (uuid == "")) [
  | inl p ↦ rw (none_held (has_uuid uuid) recs (λ r. ground arith)) (omega arith)
  | inr p ↦ uuid_holders uuid recs [] [] (λ e. ground (arith, eq_iff uuid "")) h
]

few_email :
    (email : String) (recs : List Record)
    → assert_unique recs ≡ none
    → length (keep (has_email email) recs) ≤ 1
unfolding assert_unique lookup
few_email email recs h = elim (Bool-cases (email == "")) [
  | inl p ↦ rw (none_held (has_email email) recs (λ r. ground arith)) (omega arith)
  | inr p ↦ email_holders email recs [] [] (λ e. ground (arith, eq_iff email "")) h
]

-- An offer is routed only to a stored record that has the profile's uuid or, if no record has it, the
-- profile's email; neither key counts where it is empty.
pub matched-holder :
    (uuid email : String) (recs : List Record) (r : Record)
    → route_by_account uuid email recs ≡ matched r
    → Memᴰ r recs
      × ((has_uuid uuid r ≡ true) ⊎ ((keep (has_uuid uuid) recs ≡ []) × (has_email email r ≡ true)))
unfolding route_by_account
matched-holder uuid email recs r h = by_uuid (keep (has_uuid uuid) recs) refl h
  where
    by_email :
        (es : List Record)
        → keep (has_email email) recs ≡ es
        → pick es unknown_account ≡ matched r
        → Memᴰ r recs × (has_email email r ≡ true)
    by_email [] e k = ground arith
    by_email (x ∷ []) e k = keep-head (has_email email) recs [] r (ground arith)
    by_email (x ∷ y ∷ es) e k = ground arith

    by_uuid :
        (us : List Record)
        → keep (has_uuid uuid) recs ≡ us
        → pick us (pick (keep (has_email email) recs) unknown_account) ≡ matched r
        → Memᴰ r recs
          × ((has_uuid uuid r ≡ true)
              ⊎ ((keep (has_uuid uuid) recs ≡ []) × (has_email email r ≡ true)))
    by_uuid [] e k = let (m, p) = by_email (keep (has_email email) recs) refl k in (m, inr (e, p))
    by_uuid (x ∷ []) e k =
        let (m, p) = keep-head (has_uuid uuid) recs [] r (ground arith) in (m, inl p)
    by_uuid (x ∷ y ∷ us) e k = ground arith

-- Where the uniqueness test finds no clash, no account is ambiguous.
pub unique-ne-ambiguous :
    (uuid email : String) (recs : List Record)
    → assert_unique recs ≡ none
    → route_by_account uuid email recs ≢ ambiguous_account
unfolding assert_unique route_by_account
unique-ne-ambiguous uuid email recs h k =
    ground (arith, few_uuid uuid recs h, few_email email recs h)

-- Where the uniqueness test finds no clash, an offer whose profile has a uuid goes to the record
-- with that uuid, whatever email the profile has.
pub unique-routes_uuid :
    (uuid email : String) (recs : List Record) (r : Record)
    → assert_unique recs ≡ none
    → uuid ≢ ""
    → Memᴰ r recs
    → r.account_uuid ≡ uuid
    → route_by_account uuid email recs ≡ matched r
unfolding route_by_account
unique-routes_uuid uuid email recs r h ne m e =
    let held : has_uuid uuid r ≡ true =
      ground (arith, eq_iff uuid "", eq_iff r.account_uuid uuid) in
    let sole : keep (has_uuid uuid) recs ≡ r ∷ [] =
      keep-sole (has_uuid uuid) recs r m held (few_uuid uuid recs h) in
    rw sole refl

the_same : {a b : Record} {rest : List Record} → a ∷ rest ≡ b ∷ rest → a ≡ b
the_same h = ground (arith, h)

-- Where the uniqueness test finds no clash, two records with one uuid are the same, and so are two
-- with one email.
pub unique-same_uuid :
    (recs : List Record) (r r' : Record)
    → assert_unique recs ≡ none
    → Memᴰ r recs
    → Memᴰ r' recs
    → r.account_uuid ≢ ""
    → r'.account_uuid ≡ r.account_uuid
    → r ≡ r'
unique-same_uuid recs r r' h m m' ne e =
    let held : has_uuid r.account_uuid r ≡ true =
      ground (arith, eq_iff r.account_uuid "", eq_iff r.account_uuid r.account_uuid) in
    let held' : has_uuid r.account_uuid r' ≡ true =
      ground (arith, eq_iff r.account_uuid "", eq_iff r'.account_uuid r.account_uuid) in
    let few = few_uuid r.account_uuid recs h in
    the_same (
      sym (keep-sole (has_uuid r.account_uuid) recs r m held few)
      ∙ keep-sole (has_uuid r.account_uuid) recs r' m' held' few)

pub unique-same_email :
    (recs : List Record) (r r' : Record)
    → assert_unique recs ≡ none
    → Memᴰ r recs
    → Memᴰ r' recs
    → r.account ≢ ""
    → r'.account ≡ r.account
    → r ≡ r'
unique-same_email recs r r' h m m' ne e =
    let held : has_email r.account r ≡ true =
      ground (arith, eq_iff r.account "", eq_iff r.account r.account) in
    let held' : has_email r.account r' ≡ true =
      ground (arith, eq_iff r.account "", eq_iff r'.account r.account) in
    let few = few_email r.account recs h in
    the_same (
      sym (keep-sole (has_email r.account) recs r m held few)
      ∙ keep-sole (has_email r.account) recs r' m' held' few)
