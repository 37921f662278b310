-- ===== src/Daemon/Started.antt =====
-- What holds once the daemon serves.
use mathlib.Core.Path.{subst}
use mathlib.Core.List.{Memᴰ}
use ccbroker.Creds.{Record}
use ccbroker.Server.Route.Accounts.{unique-same_uuid, unique-same_email}
use ccbroker.Base.{
  ◌≢◌, not, ◌&&◌, ap, ℕ, String, ◌==◌, ◌≡◌, refl, true, Option, none, some, List, arith, Bool-cases,
  inl, inr,
}
use ccbroker.Config.{ServerConfig, load_server}
use ccbroker.Config.KeyFile.{load_key}
use ccbroker.Store
use ccbroker.Store.{Store}
use ccbroker.Server.Route.{assert_unique}
use ccbroker.Server.State.{Broker}
use ccbroker.Server.Migrate.{Migrated, ready, save_failed, duplicate, new_broker, migrate}
use ccbroker.Server.Migrate.Ready.{migrate-ready}
use ccbroker.Daemon.{
  Disk, serving, config_arg, open_store, serve_migrated, serve_store, serve_key, key_of,
  serve_config, config_of, serve,
}

module _ (d : Disk) (cfg : ServerConfig) (b : Broker) where
  -- What was read on the way to the listeners, and what the migration left.
  pub record Started (args : List String) : Type 0 where
    pub raw : ServerConfig
    pub text : String
    pub key : List ℕ
    pub store : Store
    pub read : d.server_file (config_arg "" args) ≡ some raw
    pub accepted : load_server raw ≡ some cfg
    pub key_read : d.key_file cfg.key_path ≡ some text
    pub key_accepted : load_key text ≡ some key
    pub opened : open_store d cfg.store_path key ≡ some store
    pub left : (migrate (d.env_of cfg) (new_broker store)).1 ≡ b
    pub one_uuid :
        (r r' : Record)
        → Memᴰ r (Store.list b.store)
        → Memᴰ r' (Store.list b.store)
        → r.account_uuid ≢ ""
        → r'.account_uuid ≡ r.account_uuid
        → r ≡ r'
    pub one_email :
        (r r' : Record)
        → Memᴰ r (Store.list b.store)
        → Memᴰ r' (Store.list b.store)
        → r.account ≢ ""
        → r'.account ≡ r.account
        → r ≡ r'
    pub migrated : b.migrated ≡ true

  migrated_inv :
      (c : ServerConfig) (r : Migrated × Broker)
      → serve_migrated d c r ≡ serving cfg b
      → (c ≡ cfg) × (r.0 ≡ ready) × (r.1 ≡ b)
  migrated_inv c (ready, b') h = (ground arith, refl, ground arith)
  migrated_inv c (save_failed, b') h = absurd (ground arith)
  migrated_inv c (duplicate x, b') h = absurd (ground arith)

  store_inv :
      (c : ServerConfig) (o : Option Store)
      → serve_store d c o ≡ serving cfg b
      → (st : Store) × (o ≡ some st)
        × (c ≡ cfg)
        × ((migrate (d.env_of c) (new_broker st)).0 ≡ ready)
        × ((migrate (d.env_of c) (new_broker st)).1 ≡ b)
  store_inv c none h = absurd (ground arith)
  store_inv c (some st) h =
      elim (Bool-cases (not (c.audit_log == "") && not (d.audit_opens c.audit_log))) [
        | inl shut ↦ absurd (ground arith)
        | inr fine ↦
            let (same, done, left) =
              migrated_inv c (migrate (d.env_of c) (new_broker st)) (rw fine at h) in
            (st, refl, same, done, left)
      ]

  key_inv :
      (c : ServerConfig) (o : Option (List ℕ))
      → serve_key d c o ≡ serving cfg b
      → (key : List ℕ) × (o ≡ some key)
        × (serve_store d c (open_store d c.store_path key) ≡ serving cfg b)
  key_inv c none h = absurd (ground arith)
  key_inv c (some key) h = (key, refl, h)

  key_of_inv :
      (o : Option String) (key : List ℕ)
      → key_of d o ≡ some key
      → (text : String) × (o ≡ some text) × (load_key text ≡ some key)
  key_of_inv none key h = absurd (ground arith)
  key_of_inv (some text) key h = (text, refl, h)

  config_of_inv :
      (o : Option ServerConfig) (c : ServerConfig)
      → config_of d o ≡ some c
      → (raw : ServerConfig) × (o ≡ some raw) × (load_server raw ≡ some c)
  config_of_inv none c h = absurd (ground arith)
  config_of_inv (some raw) c h = (raw, refl, h)

  -- The configuration that is served with is the one that was accepted.
  config_inv :
      (o : Option ServerConfig)
      → serve_config d o ≡ serving cfg b
      → (o ≡ some cfg) × (serve_key d cfg (key_of d (d.key_file cfg.key_path)) ≡ serving cfg b)
  config_inv none h = absurd (ground arith)
  config_inv (some c) h =
      let (key, k, s) = key_inv c _ h in
      let (st, o, same, done, left) = store_inv c _ s in
      (
        ap (λ x. some x) same,
        subst (λ x. serve_key d x (key_of d (d.key_file x.key_path)) ≡ serving cfg b) same h,
      )

  -- `ccbrokerd serve` comes to its listeners only with a configuration that LoadServer accepted, a
  -- master key that LoadKey accepted, and a store that was opened with that key. The broker is the one
  -- that the startup migration makes of that store: no two of its records have one uuid or one email,
  -- and offers are let through.
  pub serve-Started : (args : List String) → serve d args ≡ serving cfg b → Started args
  unfolding serve
  serve-Started args h = elim (Bool-cases (config_arg "" args == "")) [
    | inl e ↦ absurd (ground arith)
    | inr e ↦
        let (found, k) = config_inv _ (rw e at h) in
        let (raw, read, accepted) = config_of_inv _ cfg found in
        let (key, got, s) = key_inv cfg _ k in
        let (text, key_read, key_accepted) = key_of_inv _ key got in
        let (st, opened, same, done, left) = store_inv cfg _ s in
        let (unique, migrated) = migrate-ready (d.env_of cfg) (new_broker st) done in
        let none_twice : assert_unique (Store.list b.store) ≡ none =
          subst (λ x. assert_unique (Store.list x.store) ≡ none) left unique in
        record {
          raw = raw;
          text = text;
          key = key;
          store = st;
          read = read;
          accepted = accepted;
          key_read = key_read;
          key_accepted = key_accepted;
          opened = opened;
          left = left;
          one_uuid = λ r r'. unique-same_uuid (Store.list b.store) r r' none_twice;
          one_email = λ r r'. unique-same_email (Store.list b.store) r r' none_twice;
          migrated = subst (λ x. x.migrated ≡ true) left migrated;
        }
  ]
