-- ===== src/Server/GetCred/Served.antt =====
-- What a 200 of GET /v1/credentials/{name} stands for (handleGetCred).
use mathlib.Core.Path.{subst}
use ccbroker.Base.{
  Bool-cases, not, ◌&&◌, if◌then◌else◌, sym, ℕ, suc, String, ◌≡◌, refl, ◌⊎◌, inl, inr, Bool, true,
  false, Option, none, some, pos, ltb_ℤ, leb_ℤ, lookup, arith, ap, ◌∙◌,
}
use ccbroker.Creds.{ok, Record, expires_at_ms, served_oauth}
use ccbroker.Creds.Serving.{served_oauth_quarantine}
use ccbroker.Config.{Client}
use ccbroker.Store
use ccbroker.Server.State.{
  Broker, Env, M, pure, gets, draw, ◌>>=◌, when◌then◌else◌, match_option, now,
}
use ccbroker.Server.Gen.{with_record, stored, wait_for_gen}
use ccbroker.Server.Refresh.{Failure, Outcome, is_ok, ensure_fresh}
use ccbroker.Server.Health.{probe_cred, transition_health}
use ccbroker.Server.Access.{auth_client, scope_allows}
use ccbroker.Server.GetCred.{
  CredRequest, CredReply, Envelope, no_such, not_modified, unauthorized, served, serve,
  serve_probed, serve_snapshot, no_record, answer_fresh, get_fresh, long_poll, get_as,
  handle_get_cred, cred_name, asks_to_wait, parse_int, is_one, is_bad_name,
}

-- The envelope is that of a record, whose token had not expired when the clock gave its answer `i`.
abbrev pub EnvelopeOf : Env → Record → Envelope → ℕ → Type 0
EnvelopeOf env snap e i =
    (e.oauth ≡ served_oauth snap env.cfg.serve_refresh_token)
    × (e.gen ≡ snap.gen)
    × (e.account ≡ snap.account)
    × (ltb_ℤ (pos (env.clock i)) (expires_at_ms snap) ≡ true)

-- What a handler answered, and the state that it left: if it is a 200, then `Why`, and the envelope is
-- that of the record, unexpired at the last question that the handler asked, which is the clock's.
abbrev Serves : Env → Type 0 → Record → CredReply × Broker → Type 0
Serves env Why snap r =
    (e : Envelope)
    → r.0 ≡ served e
    → Why × ((i : ℕ) × (suc i ≡ r.1.asked) × EnvelopeOf env snap e i)

module _ (env : Env) where
  serve-Serves :
      (snap : Record) (healthy : Bool) (live : Option Bool) (s : Broker)
      → Serves env (healthy ≡ true) snap (serve env snap healthy live s)
  unfolding serve when◌then◌else◌ now draw ◌>>=◌ pure
  serve-Serves snap false live s e h = absurd (ground arith)
  serve-Serves snap true live s e h =
      elim (Bool-cases (leb_ℤ (expires_at_ms snap) (pos (env.clock s.asked)))) [
        | inl late ↦ absurd (ground arith)
        | inr fresh ↦ (
          refl,
          (s.asked, rw fresh refl, (ground arith, ground arith, ground arith, ground arith)),
        )
      ]

  -- The record is healthy, or a probe of its token, from the given state, says that it is live.
  abbrev Why : Bool → Record → Broker → Type 0
  Why probe snap s = (is_ok snap ≡ true) ⊎ ((probe ≡ true) × ((probe_cred env snap s).0 ≡ true))

  serve_probed-Serves :
      (name : String) (snap : Record) (live : Bool) (s : Broker)
      → Serves env ((is_ok snap ≡ true) ⊎ (live ≡ true)) snap (serve_probed env name snap live s)
  unfolding serve_probed when◌then◌else◌ ◌>>=◌
  serve_probed-Serves name snap live s e h = elim (Bool-cases (live && not (is_ok snap))) [
    | inl p ↦
        let (healthy, rest) =
          serve-Serves snap true (some live) (transition_health env name ok snap.gen s).1 e
            (rw p at h) in
        (inr (ground arith), rw p rest)
    | inr p ↦
        let (healthy, rest) = serve-Serves snap (is_ok snap) (some live) s e (rw p at h) in
        (inl healthy, rw p rest)
  ]

  serve_snapshot-Serves :
      (probe : Bool) (name : String) (snap : Record) (s : Broker)
      → Serves env (Why probe snap s) snap (serve_snapshot env probe name snap s)
  unfolding serve_snapshot when◌then◌else◌ ◌>>=◌
  serve_snapshot-Serves true name snap s e h =
      let p : Bool × Broker = probe_cred env snap s in
      let (why, rest) = serve_probed-Serves name snap p.0 p.1 e h in
      (elim why [ inl fine ↦ inl fine | inr live ↦ inr (refl, live) ], rest)
  serve_snapshot-Serves false name snap s e h =
      let (healthy, rest) = serve-Serves snap (is_ok snap) none s e h in (inl healthy, rest)

  -- What is served is the record that ensureFresh gave, entered in the state `s`: healthy, or with a
  -- token that the probe right behind it says is live, if one was asked for.
  abbrev pub Shows : String → Bool → Broker → Envelope → Broker → Type 0
  Shows name probe s e after =
      (snap : Record) × (err : Option Failure) × ((ensure_fresh env name s).0 ≡ (some snap, err))
      × Why probe snap (ensure_fresh env name s).1
      × ((i : ℕ) × (suc i ≡ after.asked) × EnvelopeOf env snap e i)

  no_record-never :
      (f : Option Failure) (s : Broker) (e : Envelope) → (no_record env f s).0 ≡ served e → ⊥
  unfolding no_record pure
  no_record-never (some Failure.not_exist) s e h = absurd (ground arith)
  no_record-never _ s e h = absurd (ground arith)

  answer_fresh-Shows :
      (probe : Bool) (name : String) (s s' : Broker) (o : Outcome) (e : Envelope)
      → ensure_fresh env name s ≡ (o, s')
      → (answer_fresh env probe name o s').0 ≡ served e
      → Shows name probe s e (answer_fresh env probe name o s').1
  unfolding answer_fresh
  answer_fresh-Shows probe name s s' (none, err) e same h = absurd (no_record-never err s' e h)
  answer_fresh-Shows probe name s s' (some snap, err) e same h =
      let (why, rest) = serve_snapshot-Serves probe name snap s' e h in
      (
        snap,
        err,
        ap (λ r. r.0) same,
        subst (λ x. Why probe snap x) (sym (ap (λ r. r.1) same)) why,
        rest,
      )

  get_fresh-Shows :
      (probe : Bool) (name : String) (s : Broker) (e : Envelope)
      → (get_fresh env probe name s).0 ≡ served e
      → Shows name probe s e (get_fresh env probe name s).1
  unfolding get_fresh ◌>>=◌
  get_fresh-Shows probe name s e h = answer_fresh-Shows probe name s _ _ e refl h

  -- The state in which ensureFresh is entered: behind the long-poll, if one was asked for.
  abbrev pub entered : CredRequest → String → Broker → Broker
  entered req name s =
      if asks_to_wait req then (wait_for_gen env name (parse_int req.since_gen) s).1 else s

  long_poll-Shows :
      (req : CredRequest) (name : String) (s : Broker) (e : Envelope)
      → (long_poll env req name s).0 ≡ served e
      → Shows name
          (is_one req.probe)
          (wait_for_gen env name (parse_int req.since_gen) s).1
          e
          (long_poll env req name s).1
  unfolding long_poll with_record stored gets ◌>>=◌ match_option pure when◌then◌else◌
  long_poll-Shows req name s e h = of_found (Store.get name s.store) h
    where
      answered : ℕ × Bool → M CredReply
      answered woken =
          when woken.1 then get_fresh env (is_one req.probe) name else pure (not_modified woken.0)

      waited : (ℕ × Bool) × Broker
      waited = wait_for_gen env name (parse_int req.since_gen) s

      of_wait :
          (woken : Bool) (gen : ℕ)
          → ((when woken then get_fresh env (is_one req.probe) name else pure (not_modified gen))
              waited.1).0
            ≡ served e
          → Shows name
              (is_one req.probe)
              waited.1
              e
              ((when woken then get_fresh env (is_one req.probe) name else pure (not_modified gen))
                waited.1).1
      of_wait true gen k = get_fresh-Shows (is_one req.probe) name waited.1 e k
      of_wait false gen k = absurd (ground arith)

      of_found :
          (o : Option Record)
          → (match_option o
              (pure no_such)
              (λ _. wait_for_gen env name (parse_int req.since_gen) >>= answered)
              s).0
            ≡ served e
          → Shows name
              (is_one req.probe)
              waited.1
              e
              (match_option o
                (pure no_such)
                (λ _. wait_for_gen env name (parse_int req.since_gen) >>= answered)
                s).1
      of_found none k = absurd (ground arith)
      of_found (some r) k = of_wait _ _ k

  get_as-Shows :
      (req : CredRequest) (name : String) (client : Client) (s : Broker) (e : Envelope)
      → (get_as env req name client s).0 ≡ served e
      → (scope_allows client name ≡ true)
        × Shows name (is_one req.probe) (entered req name s) e (get_as env req name client s).1
  unfolding get_as when◌then◌else◌ pure
  get_as-Shows req name client s e h = elim (Bool-cases (is_bad_name name)) [
    | inl bad ↦ absurd (ground arith)
    | inr good ↦ elim (Bool-cases (not (scope_allows client name))) [
      | inl out ↦ absurd (ground arith)
      | inr within ↦ (
        ground arith,
        elim (Bool-cases (asks_to_wait req)) [
          | inl long ↦
              rw (good, within, long) (long_poll-Shows req name s e (rw (good, within, long) at h))
          | inr short ↦
              rw (good, within, short)
                (get_fresh-Shows (is_one req.probe) name s e (rw (good, within, short) at h))
        ],
      )
    ]
  ]

  -- A 200 goes only to a client whose bearer token is configured and whose scope has the credential.
  -- It shows the record that ensureFresh gave, entered once the long-poll was over if there was one:
  -- its object as the quarantine leaves it, its generation and its account. The token had not expired
  -- at the clock's answer to the last question that the handler asked. And the record is healthy, or
  -- the request asked for a probe and the one right behind ensureFresh says that the token is live.
  -- Whatever the clock, the disk, the upstream API and the other goroutines do.
  pub get_cred-served :
      (req : CredRequest) (s : Broker) (e : Envelope)
      → (handle_get_cred env req s).0 ≡ served e
      → (client : Client) × (auth_client env req.authorization ≡ some client)
        × (scope_allows client (cred_name req.path) ≡ true)
        × Shows
            (cred_name req.path)
            (is_one req.probe)
            (entered req (cred_name req.path) s)
            e
            (handle_get_cred env req s).1
  unfolding handle_get_cred match_option pure
  get_cred-served req s e h = of_client (auth_client env req.authorization) refl h
    where
      of_client :
          (c : Option Client)
          → auth_client env req.authorization ≡ c
          → (match_option c (pure unauthorized) (get_as env req (cred_name req.path)) s).0
            ≡ served e
          → (client : Client) × (auth_client env req.authorization ≡ some client)
            × (scope_allows client (cred_name req.path) ≡ true)
            × Shows
                (cred_name req.path)
                (is_one req.probe)
                (entered req (cred_name req.path) s)
                e
                (match_option c (pure unauthorized) (get_as env req (cred_name req.path)) s).1
      of_client none p k = absurd (ground arith)
      of_client (some client) p k =
          let (allowed, shown) = get_as-Shows req (cred_name req.path) client s e k in
          (client, p, allowed, shown)

  -- No refresh token is ever served, unless the server is configured to.
  pub get_cred-quarantine :
      (req : CredRequest) (s : Broker) (e : Envelope)
      → env.cfg.serve_refresh_token ≡ false
      → (handle_get_cred env req s).0 ≡ served e
      → lookup "refreshToken" e.oauth ≡ none
  get_cred-quarantine req s e off h =
      let (client, auth, allowed, shown) = get_cred-served req s e h in
      let (snap, err, same, why, last) = shown in
      let (i, now_last, (o, g, acct, fresh)) = last in
      ap (lookup "refreshToken") (rw off at o) ∙ served_oauth_quarantine snap
