-- ===== src/Ccb/Watch/Waiting.antt =====
-- The waits of the watch daemon (cmd/ccb/main.go) sleep for as long as they are asked to.
use ccbroker.Base.{
  Any, Ends-skip, zero, suc, ◌≡◌, refl, true, List, ◌∷◌, ℤ, pos, negsuc, leb_ℤ, Ends, Ends-pure,
  Ends-if, Ends-bind, arith,
}
use ccbroker.Ccb.State.{World, Event, slept, sleep, elapse}
use ccbroker.Ccb.Watch.{Watch, Next, again, stopped, jitter, pause}

module _ (w : World) where
  jitter-AtLeast : (d : ℤ) → Ends Any (jitter w d) (λ long s. leb_ℤ d long ≡ true)
  unfolding jitter
  jitter-AtLeast (negsuc n) = Ends-pure _ (λ s u. ground arith)
  jitter-AtLeast (pos zero) = Ends-pure _ (λ s u. refl)
  jitter-AtLeast (pos (suc n)) = Ends-skip _ _ (λ r. Ends-pure _ (λ s u. ground arith))

  Ends-sleep :
      (d long : ℤ)
      → Ends
          (λ s. leb_ℤ d long ≡ true)
          (sleep w long)
          (λ c s. (leb_ℤ d long ≡ true) × (rest : List Event) × (s.log ≡ slept long ∷ rest))
  unfolding sleep elapse
  Ends-sleep d long = record { at = λ s h. (h, s.log, refl) }

  -- A pause that is not cancelled ends with a sleep that is long enough.
  pub Ends-pause :
      (Q : Next → List Event → Type 0) (d : ℤ) (st : Watch)
      → ((log : List Event) → Q stopped log)
      → ((long : ℤ) (rest : List Event) → leb_ℤ d long ≡ true → Q (again st) (slept long ∷ rest))
      → Ends Any (pause w d st) (λ next s. Q next s.log)
  unfolding pause
  Ends-pause Q d st done on = Ends-bind _ _ (jitter-AtLeast d) λ long.
      Ends-bind _ _ (Ends-sleep d long) λ c.
        Ends-if c _ _ (λ e. Ends-pure stopped (λ s h. done s.log))
          (λ e. Ends-pure (again st) (λ s (h, rest, log). rw log (on long rest h)))
