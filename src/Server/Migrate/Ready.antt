-- ===== src/Server/Migrate/Ready.antt =====
-- What a migration that ends well leaves (Migrate of server.go).
use ccbroker.Base.{◌≡◌, refl, true, Option, none, some, arith}
use ccbroker.Store
use ccbroker.Server.State.{Broker, Env, pure, gets, modify, ◌>>=◌, when◌then◌else◌}
use ccbroker.Server.Route.{Clash, assert_unique}
use ccbroker.Server.Migrate.{ready, finish, migrate, migrate_each}

module _ (env : Env) where
  finish-ready :
      (clash : Option Clash) (s : Broker)
      → (finish env clash s).0 ≡ ready
      → (clash ≡ none)
        × ((finish env clash s).1.migrated ≡ true)
        × ((finish env clash s).1.store ≡ s.store)
  unfolding finish pure modify ◌>>=◌
  finish-ready none s h = (refl, refl, refl)
  finish-ready (some c) s h = ground arith

  -- A migration that ends well has found no two records of one account in the store that it leaves,
  -- and lets offers through; one that met a failed save or a clash does not.
  pub migrate-ready :
      (s : Broker)
      → (migrate env s).0 ≡ ready
      → (assert_unique (Store.list (migrate env s).1.store) ≡ none)
        × ((migrate env s).1.migrated ≡ true)
  unfolding migrate ◌>>=◌ gets when◌then◌else◌ pure
  migrate-ready s h =
      let after = (migrate_each env (Store.list s.store) s).1 in
      ground (arith, finish-ready (assert_unique (Store.list after.store)) after)
