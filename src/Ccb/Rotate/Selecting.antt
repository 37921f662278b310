-- ===== src/Ccb/Rotate/Selecting.antt =====
-- The outcomes of an automatic switch (autoSelect).
use ccbroker.Base.{
  Any, Ends-skip, Ends, Ends-pure, Ends-if, ℕ, String, eq_iff, ◌≡◌, ◌≢◌, refl, sym, ◌⊎◌, inl, inr,
  true, false, List, arith, pure, ◌>>=◌,
}
use ccbroker.Json.{Decimal}
use ccbroker.Anthropic.{nothing}
use ccbroker.Config.AgentFile.{Agent}
use ccbroker.Ccb.State.{World, Machine, UsageRow, now}
use ccbroker.Ccb.Rotate.{
  Selected, stay, nobody, unsaved, switched, any_fine, read_active, switch_to, auto_select,
}
use ccbroker.Ccb.Rotate.Best.{Winner, NoneEligible, Named, Found, best_of-Found}

module _ (t : ℕ) (policy : String) where
  -- What autoSelect may end with, at time `t`.
  abbrev pub Right : Decimal → String → List UsageRow → Selected → Type 0
  Right threshold active rows stay =
      (any_fine t policy threshold active rows ≡ true) ⊎ Winner t policy rows active
  Right threshold active rows nobody =
      (any_fine t policy threshold active rows ≡ false) × NoneEligible t policy rows
  Right threshold active rows (switched name) =
      (any_fine t policy threshold active rows ≡ false)
      × (name ≢ active)
      × Winner t policy rows name
  Right threshold active rows unsaved =
      (any_fine t policy threshold active rows ≡ false)
      × (name : String) × (name ≢ active)
      × Winner t policy rows name

module _ (w : World) (cfg : Agent) (rows : List UsageRow) (policy : String) where
  switch_to-Right :
      (t : ℕ) (active name : String)
      → any_fine t policy cfg.auto_threshold active rows ≡ false
      → Found t policy rows name
      → Ends Any (switch_to w active name) (λ a s. Right t policy cfg.auto_threshold active rows a)
  unfolding switch_to
  switch_to-Right t active name f (inl (e, empty)) =
      Ends-if _ _ _ (λ p. Ends-pure nobody (λ s u. (f, empty)))
        (λ q. absurd (ground (arith, eq_iff name "")))
  switch_to-Right t active name f (inr (n, win)) =
      Ends-if _ _ _ (λ p. absurd (n (ground (arith, eq_iff name ""))))
        λ q.
          Ends-if _ _ _
            (λ p.
              let same : name ≡ active = ground (arith, eq_iff name active) in
              Ends-pure stay (λ s u. inr (rw (sym same) win)))
            (λ q.
              let other : name ≢ active = λ e. ground (arith, eq_iff name active) in
              Ends-skip _ _ λ done.
                Ends-if done _ _ (λ p. Ends-pure (switched name) (λ s u. (f, other, win)))
                  (λ q. Ends-pure unsaved (λ s u. (f, name, other, win))))

  -- With rows that have names, autoSelect keeps the active account if it is alive and below the
  -- threshold, or if it is the winner: eligible (alive and not expired), with no eligible row of a
  -- lower score, nor of the same score and a lesser name. Otherwise it switches to the winner, or
  -- fails to write it, and it reports that nobody is eligible only if no row is.
  pub auto_select-Right :
      (s : Machine)
      → Named rows
      → Right
          (now w s).0
          policy
          cfg.auto_threshold
          (read_active w (now w s).1).0
          rows
          (auto_select w cfg rows policy s).0
  unfolding auto_select ◌>>=◌
  auto_select-Right s named =
      let t : ℕ = (now w s).0 in
      let active : String × Machine = read_active w (now w s).1 in
      let chosen : Ends Any _ (λ a s. Right t policy cfg.auto_threshold active.0 rows a) =
        Ends-if (any_fine t policy cfg.auto_threshold active.0 rows) (pure stay) _
          (λ p. Ends-pure stay (λ s u. inl p))
          (λ q.
            switch_to-Right t active.0 _ q
              (best_of-Found t policy ("", nothing) rows refl named)) in
      chosen.at active.1 tt
