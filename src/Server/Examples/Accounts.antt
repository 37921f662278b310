-- ===== src/Server/Examples/Accounts.antt =====
-- A migration, and an import of a second account.
use ccbroker.Base.{
  eq_iff, List, none, arith, [], ◌∷◌, true, false, insert, lookup, refl, some, values, ◌≡◌,
}
use ccbroker.Creds.{Record, ok, same_health, unset}
use ccbroker.Server.Examples.{broker, quiet_env, tokens, work}
use ccbroker.Server.Migrate.{
  finish, identify, migrate, migrate_each, migrate_record, normalize, number_gen, ready,
  store_migrated,
}
use mathlib.Core.List.{Memᴰ}
use ccbroker.Server.Route.{assert_unique, find_clash, matched, route_by_account}
use ccbroker.Server.Route.Accounts.{unique-routes_uuid}
use ccbroker.Server.Migrate.Alike.{Alike, Listed}
use ccbroker.Server.Migrate.Preserved.{migrate-Preserved}
use ccbroker.Server.State.{Broker, gets, modify, pure, when◌then◌else◌, ◌>>=◌}
use ccbroker.Store.{Store}
use ccbroker.Store

broker-ready : (migrate quiet_env broker).0 ≡ ready
unfolding migrate migrate_each migrate_record normalize number_gen identify store_migrated finish
    assert_unique find_clash Store.list values same_health lookup ◌>>=◌ gets pure modify
    when◌then◌else◌
broker-ready = refl

abbrev spare : Record
spare = record {
  name = "spare";
  account = "b@x";
  account_uuid = "u2";
  oauth = tokens "b1" "r9";
  gen = 1004;
  health_state = ok;
  health_since = 1003;
  retired_hashes = [];
  updated_at = 1005;
  legacy_dead = false;
  last_error = "";
}

abbrev both : List Record
both = work ∷ spare ∷ []

both_unique : assert_unique both ≡ none
unfolding assert_unique find_clash lookup insert
both_unique = refl

unique-routes_uuid_example : route_by_account "u2" "a@x" both ≡ matched spare
unique-routes_uuid_example =
    unique-routes_uuid "u2" "a@x" both spare both_unique (λ e. ground (arith, e, eq_iff "u2" ""))
      (Memᴰ.tail (Memᴰ.head refl)) refl

work-there : Store.get "work" broker.store ≡ some work
unfolding Store.get lookup
work-there = refl

-- A store of an earlier version: a dead record without an identity, a generation or a health.
abbrev legacy : Record
legacy = record work {
  account = "";
  account_uuid = "";
  gen = 0;
  health_state = unset;
  legacy_dead = true;
}

abbrev upgraded : Broker
upgraded = record broker {
  store = record { data_map = ("work", legacy) ∷ []; disk = ("work", legacy) ∷ [] };
  migrated = false;
}

legacy-Listed : Listed upgraded.store (Store.list upgraded.store)
unfolding Store.list values Store.get lookup
legacy-Listed = (refl, tt)

legacy-there : Store.get "work" upgraded.store ≡ some legacy
unfolding Store.get lookup
legacy-there = refl

migrate-Preserved_example :
    (r : Record) × (Store.get "work" (migrate quiet_env upgraded).1.store ≡ some r) × Alike legacy r
migrate-Preserved_example =
    migrate-Preserved quiet_env upgraded (λ i s. refl) legacy-Listed "work" legacy legacy-there
