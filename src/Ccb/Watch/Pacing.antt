-- ===== src/Ccb/Watch/Pacing.antt =====
-- How the loop of the watch daemon waits, and how its variables move.
use ccbroker.Base.{
  Any, Ends-skip, ℕ, zero, suc, ◌≤◌, ◌*◌, String, ◌≡◌, refl, ◌⊎◌, inl, inr, Bool, true, false, not,
  ◌&&◌, Option, none, some, List, ◌∷◌, ℤ, pos, ltb_ℤ, leb_ℤ, Ends, Ends-pure, Ends-if, Ends-bind,
  Ends-match, Ends-before, arith, pure, ◌>>=◌, match_option,
}
use ccbroker.Config.AgentFile.{Agent}
use ccbroker.Ccb.State.{World, Machine, Event, slept, Act, poll, http}
use ccbroker.Ccb.Broker.{poll_result, long_poll}
use ccbroker.Ccb.Watch.{
  Watch, Next, second, again, stopped, crashed, first_backoff, last_backoff, double, later, wait_of,
  sync_then, poll_failed, polled, watch_named, reloaded, iterate, go_on, watch,
}
use ccbroker.Ccb.Watch.Waiting.{Ends-pause}

-- The backoff is between 5 and 60 seconds.
abbrev pub Paced : Watch → Type 0
Paced st = (5 * second ≤ st.backoff) × (st.backoff ≤ 60 * second)

-- The loop went on from `st`: the backoff is within its bounds, and no generation was forgotten.
abbrev pub Onward : Watch → Next → Type 0
Onward st (again st') = Paced st' × (leb_ℤ st.last_gen st'.last_gen ≡ true)
Onward st stopped = Unit
Onward st crashed = Unit

-- The newest event is a sleep, of at least the backoff of before or the configured wait.
abbrev pub Slept : Watch → Watch → List Event → Type 0
Slept st st' log =
    (d : ℤ) × (rest : List Event) × (log ≡ slept d ∷ rest)
    × ((leb_ℤ (pos st.backoff) d ≡ true) ⊎ (leb_ℤ (wait_of st'.cfg) d ≡ true))

module _ (w : World) where
  -- Some answer to a long poll from this state says that there is no change.
  abbrev pub Unchanged : Watch → Watch → Type 0
  Unchanged st st' =
      (i : ℕ) × (name : String) × (gen : ℤ) × (poll_result st.last_gen
          (w.answer i (poll name st.last_gen st'.cfg.watch_wait_sec))
        ≡ some (gen, false))

  -- An iteration that goes on saw a new generation, slept, or was answered that there is none.
  abbrev pub Progress : Watch → Next → List Event → Type 0
  Progress st (again st') log =
      (ltb_ℤ st.last_gen st'.last_gen ≡ true) ⊎ Slept st st' log ⊎ Unchanged st st'
  Progress st stopped log = Unit
  Progress st crashed log = Unit

  abbrev Goes : Watch → Next → List Event → Type 0
  Goes st next log = Onward st next × Progress st next log

  Ends-sync_then :
      (st : Watch) (cfg : Agent) (next : Act Next)
      → Ends Any next (λ a s. Goes st a s.log)
      → Ends Any (sync_then w cfg next) (λ a s. Goes st a s.log)
  unfolding sync_then
  Ends-sync_then st cfg next e =
      Ends-skip _ _
        λ fails. Ends-match fails _ _ (λ n. Ends-pure crashed (λ s u. (tt, tt))) (λ n m. e)

  double-bounds :
      (b : ℕ) → first_backoff ≤ b → (first_backoff ≤ double b) × (double b ≤ last_backoff)
  unfolding double
  double-bounds b h = ground arith

  leb_ℤ-refl : (a : ℤ) → leb_ℤ a a ≡ true
  leb_ℤ-refl a = ground arith

  -- The state that an iteration works with: the configuration may be a new one.
  module _ (st : Watch) (p : Paced st) (cfg : Agent) where
    abbrev here : Watch
    here = record st { cfg = cfg }

    Goes-poll_failed : Ends Any (poll_failed w here) (λ next s. Goes st next s.log)
    unfolding poll_failed
    Goes-poll_failed = Ends-skip _ _ λ c.
        Ends-if c _ _ (λ e. Ends-pure stopped (λ s u. (tt, tt)))
          λ e.
            Ends-pause w (Goes st) (pos st.backoff) _ (λ log. (tt, tt))
              λ long rest h. (
                (double-bounds st.backoff p.0, leb_ℤ-refl st.last_gen),
                inr (inl (long, rest, refl, inl h)),
              )

    later-AtLeast : (a b : ℤ) → leb_ℤ a (later a b) ≡ true
    later-AtLeast a b = ground arith

    Polled : Option (ℤ × Bool) → Type 0
    Polled got =
        (i : ℕ) × (name : String) × (poll_result st.last_gen
            (w.answer i (poll name st.last_gen cfg.watch_wait_sec))
          ≡ got)

    -- The loop goes on at once only after a new generation, or after an answer that there is none.
    went_on :
        (gen : ℤ) (changed : Bool) (b : ℕ) (log : List Event)
        → Polled (some (gen, changed))
        → (changed && not (ltb_ℤ st.last_gen gen)) ≡ false
        → Progress st (again (record here { backoff = b; last_gen = later st.last_gen gen })) log
    unfolding Polled
    went_on gen false b log (i, name, h) e = inr (inr (i, name, gen, h))
    went_on gen true b log h e = inl (ground arith)

    Goes-polled :
        (gen : ℤ) (changed : Bool)
        → Polled (some (gen, changed))
        → Ends Any (polled w here (gen, changed)) (λ next s. Goes st next s.log)
    unfolding polled
    Goes-polled gen changed h =
        let paced : (first_backoff ≤ first_backoff) × (first_backoff ≤ last_backoff) =
          (omega arith, omega arith) in
        let kept : leb_ℤ st.last_gen (later st.last_gen gen) ≡ true =
          later-AtLeast st.last_gen gen in
        Ends-sync_then st cfg _ (
          Ends-if _ _ _
            (λ e.
              Ends-pause w (Goes st) (wait_of cfg) _ (λ log. (tt, tt))
                λ long rest g. ((paced, kept), inr (inl (long, rest, refl, inr g))))
            (λ e.
              Ends-pure _ (λ s u. ((paced, kept), went_on gen changed first_backoff s.log h e))))

    Ends-long_poll :
        (name : String)
        → Ends Any (long_poll w name st.last_gen cfg.watch_wait_sec) (λ got s. Polled got)
    unfolding long_poll http ◌>>=◌ pure Polled
    Ends-long_poll name = record { at = λ s u. (s.asked, name, refl) }

    Goes-answered :
        (got : Option (ℤ × Bool))
        → Ends {S = Machine}
            (λ s. Polled got)
            (match_option got (poll_failed w here) (polled w here))
            (λ next s. Goes st next s.log)
    unfolding match_option
    Goes-answered none = Ends-before _ (λ s h. tt) Goes-poll_failed
    Goes-answered (some (gen, changed)) = record { at = λ s h. (Goes-polled gen changed h).at s tt }

    Goes-watch_named :
        (name : String) → Ends Any (watch_named w here name) (λ next s. Goes st next s.log)
    unfolding watch_named
    Goes-watch_named name =
        Ends-if _ _ _
          (λ e. Ends-sync_then st cfg _ (
            Ends-pause w (Goes st) (wait_of cfg) _ (λ log. (tt, tt))
              λ long rest g. ((p, leb_ℤ-refl st.last_gen), inr (inl (long, rest, refl, inr g)))))
          (λ e. Ends-bind _ _ (Ends-long_poll name) Goes-answered)

    Goes-reloaded : Ends Any (reloaded w here) (λ next s. Goes st next s.log)
    unfolding reloaded
    Goes-reloaded = Ends-skip _ _ Goes-watch_named

  Goes-iterate : (st : Watch) → Paced st → Ends Any (iterate w st) (λ next s. Goes st next s.log)
  unfolding iterate
  Goes-iterate st p = Ends-skip _ _ λ c.
      Ends-if c _ _ (λ e. Ends-pure stopped (λ s u. (tt, tt)))
        (λ e. Ends-skip _ _ (λ fresh. Goes-reloaded st p _))

  -- An iteration of the watch daemon that goes on, with a backoff between 5 and 60 seconds, has seen
  -- a new generation, or ended with a sleep of at least the backoff or the configured wait, or there
  -- is an answer to its long poll that says that there is no change. How long that answer took is not
  -- said.
  pub iterate-Progress :
      (st : Watch) (s : Machine) → Paced st → Progress st (iterate w st s).0 (iterate w st s).1.log
  iterate-Progress st s p = ((Goes-iterate st p).at s tt).1

  Onward-trans :
      (a b : Watch) (next : Next)
      → leb_ℤ a.last_gen b.last_gen ≡ true
      → Onward b next
      → Onward a next
  Onward-trans a b (again c) h (p, k) = (p, ground arith)
  Onward-trans a b stopped h u = tt
  Onward-trans a b crashed h u = tt

  Onward-go_on :
      (st : Watch) (more : Watch → Act Next) (next : Next) (s : Machine)
      → ((st' : Watch) → Paced st' → Onward st' (more st' s).0)
      → Onward st next
      → Onward st (go_on more next s).0
  unfolding pure
  Onward-go_on st more (again st') s m (p, k) = Onward-trans st st' _ k (m st' p)
  Onward-go_on st more stopped s m u = tt
  Onward-go_on st more crashed s m u = tt

  -- However many iterations the loop of the watch daemon makes, from a backoff between 5 and 60
  -- seconds: if it still goes on, the backoff is between these bounds and the last generation is
  -- not less than at first.
  pub watch-Onward : (n : ℕ) (st : Watch) (s : Machine) → Paced st → Onward st (watch w n st s).0
  unfolding watch ◌>>=◌ pure
  watch-Onward zero st s p = (p, leb_ℤ-refl st.last_gen)
  watch-Onward (suc n) st s p =
      Onward-go_on st (watch w n) _ (iterate w st s).1
        (λ st' q. watch-Onward n st' (iterate w st s).1 q) ((Goes-iterate st p).at s tt).0
