-- ===== src/Ccb/Log/Writing.antt =====
-- A sync of one target writes only what it may.
use ccbroker.Base.{
  lookup, String, ◌==◌, eq_iff, ◌≡◌, refl, ◌∙◌, sym, ap, Bool, true, false, Option, none, some,
  List, ◌∷◌, Dict, Ends, Ends-pure, Ends-if, Ends-bind, Ends-match, Ends-before, arith, pure, ◌>>=◌,
  when◌then◌else◌, match_option, inl, inr, Bool-cases,
}
use ccbroker.Json.{Value, object, of_dict}
use ccbroker.Config.AgentFile.{Target}
use ccbroker.Ccb.Gate.{overwrite_decision, settled}
use ccbroker.Ccb.State.{Content, document, World, Event, UsageRow, read_target, wrote_target}
use ccbroker.Ccb.Local.{
  parse_oauth_bytes, same_oauth, merge_oauth_doc, strip_refresh_token, oauth_str, write_target,
  write_if_unchanged,
}
use ccbroker.Ccb.Broker.{OfferResult, Envelope}
use ccbroker.Ccb.Sync.{has_rt, overwrite, gate, sync_offered, sync_target, account_of}
use ccbroker.Ccb.Log.{LetsGo, Secured, Justified}
use ccbroker.Ccb.Log.Targets.{
  AfterRead, Ends-read_local_raw, Ends-write_target, Ends-read_local_oauth,
}
use ccbroker.Ccb.Log.Quiet.{Ends-quiet, Quiet-resolve_cred, Quiet-show_account}
use ccbroker.Ccb.Log.Offering.{
  Offered, Fetched, Offered-later, Ends-offer_local, Ends-get_cred_envelope,
}

-- The gate opens for a local refresh token only if the verdict lets it go.
pub overwrite_decision-LetsGo :
    (res : OfferResult) (live : Bool)
    → overwrite_decision true res.adopted res.reason live ≡ true
    → LetsGo res live
unfolding overwrite_decision
overwrite_decision-LetsGo res live h = elim (Bool-cases res.adopted) [
  | inl a ↦ inl a
  | inr a ↦ elim (Bool-cases (settled res.reason)) [
    | inl b ↦ inr (inl b)
    | inr b ↦ elim (Bool-cases (res.reason == "offer_not_live")) [
      | inl c ↦ inr (inr (ground (arith, eq_iff res.reason "offer_not_live"), ground arith))
      | inr c ↦ absurd (ground arith)
    ]
  ]
]

same_oauth-has_rt :
    (a b : Option (Dict Value)) → same_oauth a b ≡ true → has_rt a ≡ true → has_rt b ≡ true
unfolding same_oauth has_rt
same_oauth-has_rt a b h r =
    ground (arith, eq_iff (oauth_str a "refreshToken") (oauth_str b "refreshToken"))

-- The offer of a local credential secures what was read, if both have the same tokens.
secured :
    (local found : Option (Dict Value)) (res : OfferResult) (live : Bool) (log : List Event)
    → Offered local res log
    → overwrite_decision (has_rt local) res.adopted res.reason live ≡ true
    → same_oauth found local ≡ true
    → has_rt found ≡ true
    → Secured found live log
secured local found res live log o passed same has =
    let held : has_rt local ≡ true = same_oauth-has_rt found local same has in
    let (d, a, is, m, got) = o held in
    record {
      offered = d;
      answer = a;
      in_log = m;
      same = rw (sym is) same;
      lets_go = rw got (
          overwrite_decision-LetsGo res live
            (ap (λ b. overwrite_decision b res.adopted res.reason live) (sym held) ∙ passed));
    }

-- What is known of the log before the write.
abbrev Ready : Option (Dict Value) → OfferResult → String → Bool → Envelope → List Event → Type 0
Ready local res name probe env log =
    Justified log × Offered local res log × Fetched name probe (some env) log

module _ (w : World) (t : Target) where
  -- The write after the gate.
  Ends-write_if_unchanged :
      (local : Option (Dict Value)) (res : OfferResult) (name : String) (probe : Bool)
      (env : Envelope)
      → overwrite_decision (has_rt local) res.adopted res.reason env.probe_live ≡ true
      → Ends
          (λ s. Ready local res name probe env s.log)
          (write_if_unchanged w t local (strip_refresh_token env.oauth))
          (λ done s. Justified s.log)
  unfolding write_if_unchanged match_option
  Ends-write_if_unchanged local res name probe env passed =
      Ends-bind _ _ (Ends-read_local_raw w t (Ready local res name probe env)) after_read
    where
      doc : Option Content → Content
      doc raw = document (object (of_dict (merge_oauth_doc raw (strip_refresh_token env.oauth))))

      may_write :
          (raw : Option Content) (rest : List Event)
          → Ready local res name probe env rest
          → same_oauth (parse_oauth_bytes raw) local ≡ true
          → Justified (wrote_target t (doc raw) ∷ read_target t raw ∷ rest)
      may_write raw rest (j, o, (a, m, body)) same = (
        (
          refl,
          record {
            name = name;
            probe = probe;
            answer = a;
            env = env;
            in_log = m;
            body = body;
            content = refl;
            safe = secured local (parse_oauth_bytes raw) res env.probe_live rest o passed same;
          },
        ),
        j,
      )

      after_read :
          (got : Option (Option Content))
          → Ends
              (λ s. AfterRead t (Ready local res name probe env) got s.log)
              (match_option got (pure none) λ raw.
                when same_oauth (parse_oauth_bytes raw) local
                then (do
                  done ← write_target w t (doc raw)
                  when done then pure (some true) else pure none)
                else pure (some false))
              (λ done s. Justified s.log)
      after_read none = Ends-pure none (λ s p. p.0)
      after_read (some raw) = record {
        at = λ s (rest, p, e).
            (Ends-if {P = λ s. s.log ≡ read_target t raw ∷ rest} {Q = λ done s. Justified s.log}
                (same_oauth (parse_oauth_bytes raw) local) _ _
                (λ same.
                  Ends-bind _ _
                    (Ends-write_target w t (doc raw) (read_target t raw ∷ rest)
                      (may_write raw rest p same))
                    (λ done.
                      Ends-if done _ _ (λ yes. Ends-pure (some true) (λ s j. j))
                        (λ no. Ends-pure none (λ s j. j))))
                (λ other. Ends-pure (some false) (λ s e. rw e p.0))).at
              s e;
      }

  module _ (by_name : Dict UsageRow) (local : Option (Dict Value)) where
    Ends-overwrite :
        (res : OfferResult) (name : String) (probe : Bool) (env : Envelope)
        → overwrite_decision (has_rt local) res.adopted res.reason env.probe_live ≡ true
        → Ends
            (λ s. Ready local res name probe env s.log)
            (overwrite w t by_name local name env)
            (λ fail s. Justified s.log)
    unfolding overwrite
    Ends-overwrite res name probe env passed =
        Ends-bind _ _ (Ends-write_if_unchanged local res name probe env passed) λ wrote.
          Ends-match wrote _ _ (λ e. Ends-pure (some true) (λ s j. j))
            (λ done e.
              Ends-if done _ _
                (λ yes.
                  Ends-quiet Justified _
                    (Quiet-show_account w t (account_of (lookup name by_name))))
                (λ no. Ends-pure (some true) (λ s j. j)))

    Ends-gate :
        (res : OfferResult) (name : String) (probe : Bool) (env : Envelope)
        → Ends
            (λ s. Ready local res name probe env s.log)
            (gate w t by_name local res name env)
            (λ fail s. Justified s.log)
    unfolding gate
    Ends-gate res name probe env =
        Ends-if _ _ _ (Ends-overwrite res name probe env) (λ shut. Ends-pure _ (λ s r. r.0))

    Ends-sync_offered :
        (res : OfferResult)
        → Ends
            (λ s. Justified s.log × Offered local res s.log)
            (sync_offered w t by_name local res)
            (λ fail s. Justified s.log)
    unfolding sync_offered match_option
    Ends-sync_offered res =
        Ends-bind _ _ (Ends-quiet Known _ (Quiet-resolve_cred w t.cred)) λ found.
          Ends-match found _ _ (λ e. Ends-pure (some true) (λ s p. p.0))
            λ name e.
              Ends-bind _ _
                (Ends-get_cred_envelope w Known name _
                  (λ a log p. (p.0, Offered-later local res _ log p.1)))
                (fetched name _)
      where
        Known : List Event → Type 0
        Known log = Justified log × Offered local res log

        fetched :
            (name : String) (probe : Bool) (got : Option Envelope)
            → Ends
                (λ s. Known s.log × Fetched name probe got s.log)
                (match_option got (pure (some true)) λ e. gate w t by_name local res name e)
                (λ fail s. Justified s.log)
        fetched name probe none = Ends-pure (some true) (λ s p. p.0.0)
        fetched name probe (some env) =
            Ends-before _ (λ s (k, f). (k.0, k.1, f)) (Ends-gate res name probe env)

  -- A sync of a target keeps every write of the log justified.
  pub Ends-sync_target :
      (by_name : Dict UsageRow)
      → Ends (λ s. Justified s.log) (sync_target w t by_name) (λ fail s. Justified s.log)
  unfolding sync_target
  Ends-sync_target by_name = Ends-bind _ _ (Ends-read_local_oauth w t) λ got.
      Ends-match got _ _ (λ e. Ends-pure (some true) (λ s j. j))
        λ local e. Ends-bind _ _ (Ends-offer_local w local) (Ends-sync_offered by_name local)
