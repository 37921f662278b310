-- ===== src/Server/Migrate/Preserved.antt =====
-- What a migration leaves of each record (Migrate of server.go).
use mathlib.Core.Path.{subst}
use mathlib.Core.Option.{some-injective}
use ccbroker.Base.{
  String, ◌==◌, eq_iff, ◌≡◌, refl, ◌∙◌, sym, ap, Bool, true, false, Option, none, some, List, [],
  ◌∷◌, inl, inr, Bool-cases, if◌then◌else◌, Ends, Ends-pure, Ends-if, Ends-bind,
}
use ccbroker.Creds.{Record}
use ccbroker.Anthropic.{Request}
use ccbroker.Store
use ccbroker.Store.{Store}
use ccbroker.Server.State.{
  Broker, Env, M, draw, now, upstream, gets, modify, pure, ◌>>=◌, when◌then◌else◌,
}
use ccbroker.Server.Gen.{put, seed_gen}
use ccbroker.Server.Health.Suspicion.{Quiet}
use ccbroker.Server.Route.{Clash, assert_unique}
use ccbroker.Server.Migrate.{
  ready, normalize, number_gen, identify, store_migrated, migrate_record, migrate_each, finish,
  migrate, save_failed,
}
use ccbroker.Server.Migrate.Alike.{
  Alike, Listed, Preserved, updated-Alike, Alike-refl, Alike-trans, normalized-Alike,
  identified-Alike, numbered-Alike, get-put,
}

module _ (env : Env) (quiet : Quiet env) (old : Store) where
  abbrev Kept : Broker → Type 0
  Kept s = Preserved old s.store

  -- What holds of a record on its way through the migration.
  abbrev OnItsWay : Record → Record × Bool → Broker → Type 0
  OnItsWay r1 found s = Kept s × Alike r1 found.0

  Ends-now : Ends Kept (now env) (λ t. Kept)
  unfolding now draw
  Ends-now = record { at = λ s p. p }

  Ends-upstream : (req : Request) → Ends Kept (upstream env none req) (λ a. Kept)
  unfolding upstream
  Ends-upstream req = record { at = λ s p. rw (quiet s.asked s) p }

  Ends-normalize : (r : Record) → Ends Kept (normalize env r) (OnItsWay r)
  unfolding normalize
  Ends-normalize r =
      Ends-if _ _ _
        (λ e. Ends-bind _ _ Ends-now λ t. Ends-pure _ (λ s p. (p, normalized-Alike r t e)))
        (λ e. Ends-pure _ (λ s p. (p, Alike-refl r)))

  Ends-number_gen :
      (r1 : Record) (found : Record × Bool)
      → Alike r1 found.0
      → Ends Kept (number_gen env found) (OnItsWay r1)
  unfolding number_gen
  Ends-number_gen r1 (r, changed) a =
      Ends-if _ _ _
        (λ e.
          Ends-bind _ _ Ends-now
            λ t. Ends-pure _ (λ s p. (p, Alike-trans r1 r _ a (numbered-Alike r t e))))
        (λ e. Ends-pure _ (λ s p. (p, a)))

  Ends-identify :
      (r1 : Record) (found : Record × Bool)
      → Alike r1 found.0
      → Ends Kept (identify env found) (OnItsWay r1)
  unfolding identify
  Ends-identify r1 (r, changed) a =
      Ends-if _ _ _
        (λ e. Ends-bind _ _ Ends-now λ t.
          Ends-bind _ _ (Ends-upstream _)
            λ ans. Ends-pure _ (λ s p. (p, Alike-trans r1 r _ a (identified-Alike r changed _))))
        (λ e. Ends-pure _ (λ s p. (p, a)))

  put-Preserved :
      (r1 r : Record) (s : Broker)
      → Store.get r1.name old ≡ some r1
      → Alike r1 r
      → Preserved old s.store
      → Preserved old (put env r s).1.store
  unfolding put
  put-Preserved r1 r s held a p name r0 e = elim (Bool-cases (r.name == name)) [
    | inl own ↦
        let here : name ≡ r1.name = sym ((eq_iff r.name name).0 own) ∙ a.name in
        let same : r1 ≡ r0 =
          some-injective _ _ (sym held ∙ ap (λ n. Store.get n old) (sym here) ∙ e) in
        (r, get-put (env.saves s.asked) r s.store name ∙ rw own refl, subst (λ x. Alike x r) same a)
    | inr other ↦
        let (r', there, b) = p name r0 e in
        (r', get-put (env.saves s.asked) r s.store name ∙ rw other there, b)
  ]

  Ends-put :
      (r1 r : Record)
      → Store.get r1.name old ≡ some r1
      → Alike r1 r
      → Ends Kept (put env r) (λ saved. Kept)
  Ends-put r1 r held a = record { at = λ s p. put-Preserved r1 r s held a p }

  Ends-seed_gen : (r : Record) → Ends Kept (seed_gen r) (λ u. Kept)
  unfolding seed_gen modify
  Ends-seed_gen r = record { at = λ s p. p }

  Ends-store_migrated :
      (r1 : Record) (found : Record × Bool)
      → Store.get r1.name old ≡ some r1
      → Alike r1 found.0
      → Ends Kept (store_migrated env found) (λ ok. Kept)
  unfolding store_migrated
  Ends-store_migrated r1 (r, false) held a = Ends-pure true (λ s p. p)
  Ends-store_migrated r1 (r, true) held a = Ends-bind _ _ Ends-now λ t.
      Ends-bind _ _ (Ends-put r1 _ held (Alike-trans r1 r _ a (updated-Alike r t))) λ saved.
        Ends-if saved _ _ (λ e. Ends-bind _ _ (Ends-seed_gen _) (λ u. Ends-pure true (λ s p. p)))
          (λ e. Ends-pure false (λ s p. p))

  -- A step that starts from what is known of the record.
  Ends-found :
      {Q : Record × Bool → Broker → Type 0} (r1 : Record) (found : Record × Bool)
      (m : M (Record × Bool))
      → (Alike r1 found.0 → Ends Kept m Q)
      → Ends (OnItsWay r1 found) m Q
  Ends-found r1 found m e = record { at = λ s (p, a). (e a).at s p }

  Ends-migrate_record :
      (r : Record) → Store.get r.name old ≡ some r → Ends Kept (migrate_record env r) (λ ok. Kept)
  unfolding migrate_record
  Ends-migrate_record r held = Ends-bind _ _ (Ends-normalize r) λ healthy.
      Ends-bind _ _ (Ends-found r healthy _ (Ends-number_gen r healthy)) λ numbered.
        Ends-bind _ _ (Ends-found r numbered _ (Ends-identify r numbered))
          λ known. record { at = λ s (p, a). (Ends-store_migrated r known held a).at s p }

  Ends-migrate_each :
      (rs : List Record) → Listed old rs → Ends Kept (migrate_each env rs) (λ ok. Kept)
  unfolding migrate_each
  Ends-migrate_each [] l = Ends-pure true (λ s p. p)
  Ends-migrate_each (r ∷ rs) (held, l) =
      Ends-bind _ _ (Ends-migrate_record r held)
        λ ok. Ends-if ok _ _ (λ e. Ends-migrate_each rs l) (λ e. Ends-pure false (λ s p. p))

  Ends-finish : (clash : Option Clash) → Ends Kept (finish env clash) (λ out. Kept)
  unfolding finish modify
  Ends-finish (some c) = Ends-pure _ (λ s p. p)
  Ends-finish none = Ends-bind _ _ marked (λ u. Ends-pure ready (λ s p. p))
    where
      marked : Ends Kept (modify (λ (s : Broker). record s { migrated = true })) (λ u. Kept)
      marked = record { at = λ s p. p }

  Ends-gets_clash : Ends Kept (gets (λ (s : Broker). Store.list s.store)) (λ all. Kept)
  unfolding gets
  Ends-gets_clash = record { at = λ s p. p }

  Ends-migrated :
      (rs : List Record)
      → Listed old rs
      → Ends Kept
          (migrate_each env rs >>= λ done.
            when done
            then (gets (λ (s : Broker). Store.list s.store) >>= λ all.
                finish env (assert_unique all))
            else pure save_failed)
          (λ out. Kept)
  Ends-migrated rs l = Ends-bind _ _ (Ends-migrate_each rs l) λ ok.
      Ends-if ok _ _ (λ e. Ends-bind _ _ Ends-gets_clash λ all. Ends-finish (assert_unique all))
        (λ e. Ends-pure save_failed (λ s p. p))

-- However a migration ends, also at a failed save or a clash, no stored record is lost: each is
-- still there under its name, with its tokens and its ring, with the health that it showed and no
-- lower generation. The store has each record under the record's own name, and the other goroutines
-- leave it alone.
pub migrate-Preserved :
    (env : Env) (s : Broker)
    → Quiet env
    → Listed s.store (Store.list s.store)
    → (name : String) (r0 : Record) → Store.get name s.store ≡ some r0
    → (r : Record) × (Store.get name (migrate env s).1.store ≡ some r) × Alike r0 r
unfolding migrate ◌>>=◌ gets
migrate-Preserved env s quiet l =
    (Ends-migrated env quiet s.store (Store.list s.store) l).at s
      (λ name r0 e. (r0, e, Alike-refl r0))
