-- ===== src/Ccb/Log/Targets.antt =====
-- What the reads and the writes of a target (cmd/ccb/main.go) leave in the log.
use ccbroker.Base.{
  ◌≡◌, refl, true, false, Option, none, some, List, ◌∷◌, Ends, Ends-pure, Ends-if, Ends-bind,
  Ends-match, pure, modify, match_option,
}
use ccbroker.Config.AgentFile.{Target}
use ccbroker.Ccb.State.{Machine, Content, World, Event, read_target, wrote_target, note}
use ccbroker.Ccb.Local.{parse_oauth_bytes, read_local_raw, read_local_oauth, write_target}
use ccbroker.Ccb.Log.{Justified}
use ccbroker.Ccb.Log.Quiet.{Ends-quiet, Quiet-read_at, Quiet-write_at}

-- After a read of a target: the read is the newest event, if it gave no error.
abbrev pub AfterRead :
    Target → (List Event → Type 0) → Option (Option Content) → List Event → Type 0
AfterRead t P none log = P log
AfterRead t P (some raw) log = (rest : List Event) × P rest × (log ≡ read_target t raw ∷ rest)

module _ (w : World) (t : Target) where
  pub Ends-read_local_raw :
      (P : List Event → Type 0)
      → Ends (λ s. P s.log) (read_local_raw w t) (λ got s. AfterRead t P got s.log)
  unfolding read_local_raw modify
  Ends-read_local_raw P = Ends-bind _ _ (Ends-quiet P _ (Quiet-read_at w t)) λ got.
      Ends-match got _ _ (λ e. Ends-pure none (λ s p. p))
        (λ raw e.
          Ends-bind {R = λ u s. AfterRead t P (some raw) s.log} _ _ (Ends-noted raw)
            (λ u. Ends-pure (some raw) (λ s q. q)))
    where
      Ends-noted :
          (raw : Option Content)
          → Ends
              (λ s. P s.log)
              (modify (note (read_target t raw)))
              (λ u s. AfterRead t P (some raw) s.log)
      Ends-noted raw = record { at = λ s p. (s.log, p, refl) }

  pub Ends-write_target :
      (c : Content) (log : List Event)
      → Justified (wrote_target t c ∷ log)
      → Ends (λ s. s.log ≡ log) (write_target w t c) (λ done s. Justified s.log)
  unfolding write_target modify
  Ends-write_target c log j =
      Ends-bind _ _ (Ends-quiet (λ l. l ≡ log) _ (Quiet-write_at w t c)) λ done.
        Ends-if done _ _
          (λ yes.
            Ends-bind {R = λ u s. Justified s.log} _ _ Ends-noted (λ u. Ends-pure true (λ s q. q)))
          (λ no. Ends-pure false (λ s e. rw e j.1))
    where
      Ends-noted :
          Ends (λ s. s.log ≡ log) (modify (note (wrote_target t c))) (λ u s. Justified s.log)
      Ends-noted = record { at = λ s e. rw e j }

  Ends-parsed :
      (got : Option (Option Content))
      → Ends {S = Machine}
          (λ s. AfterRead t Justified got s.log)
          (match_option got (pure none) λ raw. pure (some (parse_oauth_bytes raw)))
          (λ parsed s. Justified s.log)
  unfolding match_option
  Ends-parsed none = Ends-pure none (λ s j. j)
  Ends-parsed (some raw) = Ends-pure _ (λ s (rest, j, e). rw e j)

  pub Ends-read_local_oauth :
      Ends
        (λ (s : Machine). Justified s.log)
        (read_local_oauth w t)
        (λ got (s : Machine). Justified s.log)
  unfolding read_local_oauth
  Ends-read_local_oauth = Ends-bind _ _ (Ends-read_local_raw Justified) Ends-parsed
