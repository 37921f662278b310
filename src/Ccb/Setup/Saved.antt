-- ===== src/Ccb/Setup/Saved.antt =====
-- What `ccb setup` leaves behind.
use mathlib.Core.Path.{subst}
use ccbroker.Base.{
  ◌⊎◌, String, ◌≡◌, ◌≢◌, refl, false, some, List, lookup, lookup-insert_self, arith, pure, ◌>>=◌,
  match_option, when◌then◌else◌, Bool-cases, inl, inr,
}
use ccbroker.Json.{object, of_dict}
use ccbroker.Config.AgentFile.{Agent}
use ccbroker.Config.AgentJson.{agent_json}
use ccbroker.Ccb.State.{document, Machine, World, elapse, write_file}
use ccbroker.Ccb.Local.{expand_home}
use ccbroker.Ccb.Setup.{
  Stage, kept, out_of_input, unwritten, looping, saved, stopped, exists, save_config, ask_all,
  configure, after_saving, run_setup,
}
use ccbroker.Ccb.Setup.Scheduler.{Host, line_of, lines_after}
use ccbroker.Ccb.Setup.Dialog.{Reply, said, ended, hangs, yes_or}
use ccbroker.Ccb.Setup.Dialog.Asks.{Sound}
use ccbroker.Ccb.Setup.Wizard.{collect}
use ccbroker.Ccb.Setup.Wizard.Answers.{Complete, Asks-collect}
use ccbroker.Ccb.Setup.Wizard.Typed.{Typed, Valid, lines_of, agent_of, collect-lines_of}

module _ (h : Host) (w : World) (p : String) where
  abbrev Holds : Agent → Machine → Type 0
  Holds a s = lookup p s.files ≡ some (document (object (of_dict (agent_json a))))

  save_lem :
      (r : Reply Agent) (s : Machine) (a : Agent) (rest : List String)
      → (save_config h w p r s).0 ≡ saved a rest
      → (r ≡ said a rest) × Holds a (save_config h w p r s).1
  unfolding save_config write_file pure ◌>>=◌ when◌then◌else◌
  save_lem ended s a rest e = absurd (ground arith)
  save_lem hangs s a rest e = absurd (ground arith)
  save_lem (said b ls) s a rest e =
      ground (
        arith,
        lookup-insert_self p (document (object (of_dict (agent_json b)))) (elapse w s).files,
      )

  save_said :
      (a : Agent) (rest : List String) (s : Machine)
      → ((save_config h w p (said a rest) s).0 ≡ saved a rest)
        ⊎ ((save_config h w p (said a rest) s).0 ≡ unwritten)
  unfolding save_config ◌>>=◌ when◌then◌else◌ pure
  save_said a rest s =
      elim (Bool-cases (write_file w p (document (object (of_dict (agent_json a)))) s).0) [
        | inl done ↦ inl (rw done refl)
        | inr failed ↦ inr (rw failed refl)
      ]

  save_looping : (r : Reply Agent) (s : Machine) → (save_config h w p r s).0 ≡ looping → r ≡ hangs
  unfolding save_config write_file pure ◌>>=◌ when◌then◌else◌
  save_looping ended s e = absurd (ground arith)
  save_looping hangs s e = refl
  save_looping (said b ls) s e = absurd (ground arith)

  collect_sound : (ls : List String) → collect h.parse_url h.parse_float w.is_darwin ls ≢ hangs
  collect_sound ls e =
      subst (Sound (Complete h.parse_url h.parse_float w.is_darwin)) e
        ((Asks-collect h.parse_url h.parse_float w.is_darwin).at ls)

  -- The stage comes from the questions, or the file is kept.
  configure-ask_all :
      (ls : List String) (s : Machine)
      → ((configure h w p ls s).0 ≡ kept)
        ⊎ ((used : List String) × (t : Machine) × (configure h w p ls s ≡ ask_all h w p used t))
  unfolding configure ◌>>=◌ when◌then◌else◌ pure
  configure-ask_all ls s = elim (Bool-cases (exists h w p s).0) [
    | inr new ↦ inr (ls, (exists h w p s).1, rw new refl)
    | inl old ↦ elim (Bool-cases (yes_or false (line_of ls))) [
      | inl yes' ↦ inr (lines_after ls, (exists h w p s).1, rw (old, yes') refl)
      | inr no' ↦ inl (rw (old, no') refl)
    ]
  ]

  -- If the lines that are typed answer the questions of `ccb setup` in their order, each with an
  -- answer that its question takes, then nothing more is asked: the configuration that is saved has
  -- just these answers, less the spaces around them, and the default where the answer is empty; and
  -- if the write succeeded, the file holds its JSON at that moment.
  pub ask_all-Saved :
      (t : Typed) (rest : List String) (s : Machine)
      → Valid h.parse_url h.parse_float w.is_darwin t
      → let a = agent_of h.parse_url h.parse_float w.is_darwin t in
        let done = ask_all h w p (lines_of w.is_darwin t rest) s in
        ((done.0 ≡ saved a rest) ⊎ (done.0 ≡ unwritten)) × (done.0 ≡ saved a rest → Holds a done.1)
  unfolding ask_all
  ask_all-Saved t rest s v =
      let a : Agent = agent_of h.parse_url h.parse_float w.is_darwin t in
      rw (collect-lines_of h.parse_url h.parse_float w.is_darwin t rest v)
        (save_said a rest s, λ e. (save_lem (said a rest) s a rest e).1)

  configure_ends : (ls : List String) (s : Machine) → (configure h w p ls s).0 ≢ looping
  unfolding ask_all
  configure_ends ls s e = elim (configure-ask_all ls s) [
    | inl k ↦ absurd (ground arith)
    | inr (used, t, same) ↦ collect_sound used (save_looping _ t (rw same at e))
  ]

  after_looping :
      (st : Stage) (s : Machine) → (after_saving h w p st s).0 ≡ stopped looping → st ≡ looping
  unfolding after_saving pure ◌>>=◌ match_option
  after_looping (saved a rest) s e = absurd (ground arith)
  after_looping kept s e = absurd (ground arith)
  after_looping out_of_input s e = absurd (ground arith)
  after_looping unwritten s e = absurd (ground arith)
  after_looping looping s e = refl

-- However many lines are typed and whatever they are, the questions of `ccb setup` do not go on for
-- ever: no loop is left that asks again and again behind the end of the input.
pub run_setup_ends :
    (h : Host) (w : World) (path : String) (ls : List String) (s : Machine)
    → (run_setup h w path ls s).0 ≢ stopped looping
unfolding run_setup ◌>>=◌
run_setup_ends h w path ls s e =
    configure_ends h w (expand_home w path) ls s (after_looping h w (expand_home w path) _ _ e)
