-- ===== src/Server/Migrate.antt =====
-- The start of the daemon (server.go: New, Migrate).
pub mod Ready
pub mod Alike
pub mod Preserved
use ccbroker.Base.{
  ◌==◌, Bool, true, false, ◌||◌, Option, none, some, List, [], ◌∷◌, Dict, insert, eqb,
  if◌then◌else◌,
}
use ccbroker.Json.{Value, text_at}
use ccbroker.Creds.{Record, unset, health, same_health, access_token}
use ccbroker.Anthropic.{get_profile, Fetched, fetched, failed, fetch_profile}
use ccbroker.Store
use ccbroker.Store.{Store}
use ccbroker.Server.State.{
  when◌then◌else◌, Broker, CredState, Env, M, pure, gets, modify, ◌>>=◌, ◌>>◌, now, upstream,
}
use ccbroker.Server.Gen.{next_gen, seed_gen, put}
use ccbroker.Server.Refresh.{first_nonempty}
use ccbroker.Server.Route.{Clash, assert_unique}

seed : List Record → Dict CredState
seed [] = []
seed (r ∷ rest) = insert r.name (record { gen = r.gen; wakes = 0 }) (seed rest)

-- New: the wake map is seeded from the stored generations.
unfoldable pub new_broker : Store → Broker
unfolding seed
new_broker st = record {
  store = st;
  backoff = [];
  dead_probe = [];
  store_ver = 0;
  gen_state = seed (Store.list st);
  usage = [];
  probe = [];
  rate = [];
  migrated = false;
  asked = 0;
  sent = [];
}

pub data Migrated : Type 0 where
  ready save_failed : Migrated
  duplicate : Clash → Migrated

-- The profile's identity, where it was read, and that the record changed.
unfoldable pub identified : Record → Bool → Fetched (Dict Value) → Record × Bool
identified r changed (failed e) = (r, changed)
identified r changed (fetched acct) = (
  record r {
    account = first_nonempty (text_at acct "emailAddress") r.account;
    account_uuid = first_nonempty (text_at acct "accountUuid") r.account_uuid;
  },
  true,
)

module _ (env : Env) where
  -- if nr.HealthState == ""
  unfoldable pub normalize : Record → M (Record × Bool)
  normalize r =
      when same_health r.health_state unset
      then (do t ← now env; pure (record r { health_state = health r; health_since = t }, true))
      else pure (r, false)

  -- if nr.Gen == 0
  unfoldable pub number_gen : Record × Bool → M (Record × Bool)
  number_gen (r, changed) =
      when eqb r.gen 0
      then (do t ← now env; pure (record r { gen = next_gen 0 t }, true))
      else pure (r, changed)

  -- if nr.Account == "" || nr.AccountUUID == ""
  unfoldable pub identify : Record × Bool → M (Record × Bool)
  identify (r, changed) =
      when r.account == "" || r.account_uuid == ""
      then (do
        t ← now env
        a ← upstream env none (get_profile (access_token r))
        pure (identified r changed (fetch_profile t a)))
      else pure (r, changed)

  -- if changed: whether there was no error
  unfoldable pub store_migrated : Record × Bool → M Bool
  store_migrated (r, false) = pure true
  store_migrated (r, true) = do
    t ← now env
    saved ← put env (record r { updated_at = t })
    when saved then (seed_gen (record r { updated_at = t }) >> pure true) else pure false

  unfoldable pub migrate_record : Record → M Bool
  migrate_record rec = do
    healthy ← normalize rec
    numbered ← number_gen healthy
    known ← identify numbered
    store_migrated known

  unfoldable pub migrate_each : List Record → M Bool
  migrate_each [] = pure true
  migrate_each (rec ∷ rest) = do
    done ← migrate_record rec
    when done then migrate_each rest else pure false

  unfoldable pub finish : Option Clash → M Migrated
  finish (some c) = pure (duplicate c)
  finish none = do modify (λ s. record s { migrated = true }); pure ready

  -- Migrate
  unfoldable pub migrate : M Migrated
  migrate = do
    recs ← gets (λ s. Store.list s.store)
    done ← migrate_each recs
    when done
        then (do all ← gets (λ s. Store.list s.store); finish (assert_unique all))
        else pure save_failed
