-- ===== src/Access/Impersonation/Sessions.antt =====
-- Whom src/services/impersonation_service.ts lets act, and for how long.
use adonisjs_lasagna_multite.Prelude.{
  ℕ, ◌+◌, ◌*◌, ◌<◌, ◌≡◌, refl, ap, ◌∙◌, subst, Bool, true, false, Option, none, some, arith,
  Bool-cases, inl, inr, leb, ltb, if◌then◌else◌, ◌==◌, list_eq, beq_refl, Text,
}
use adonisjs_lasagna_multite.Prelude.Effects.{Outcome, returned, thrown}
use adonisjs_lasagna_multite.Access.Impersonation.{
  Session, Context, StartOptions, StartResult, CacheOps, CacheLaws, Outside, World, Config,
  ImpersonationError, secret_of, is_clean_id, duration_of, sign, extract_session_id, session_of,
  context_of, begin_session, started, start, stopped, stop_extracted, stop, verify_found,
  verify_extracted, verify,
}
use adonisjs_lasagna_multite.Access.Impersonation.Tokens.{
  Signed, IsStrong, extract-sign, extracted-Signed,
}

module _ {C L : Type 0} (cache : CacheOps C) (laws : CacheLaws cache) (out : Outside L)
    (config : Config) where
  -- A context is given for a live session only.
  abbrev pub Verified : Text → ℕ → World C L → Option Context → Type 0
  Verified token now w none = Unit
  Verified token now w (some context) =
      (key : Text) × (id : Text) × (session : Session) × (secret_of config ≡ returned key)
      × Signed out key token id
      × (cache.get id now w.cache ≡ some session)
      × (now < session.expires_at)
      × (context ≡ context_of session)

  abbrev VerifiedOutcome :
      Text → ℕ → World C L → Outcome ImpersonationError (Option Context) → Type 0
  VerifiedOutcome token now w (thrown e) = Unit
  VerifiedOutcome token now w (returned context) = Verified token now w context

  verify_found-Verified :
      (token id key : Text) (now : ℕ) (w : World C L) (found : Option Session)
      → cache.get id now w.cache ≡ found
      → secret_of config ≡ returned key
      → Signed out key token id
      → Verified token now w (verify_found cache out config now id found w).0
  unfolding verify_found
  verify_found-Verified token id key now w none e secret signed = tt
  verify_found-Verified token id key now w (some s) e secret signed =
      elim (Bool-cases (leb s.expires_at now)) [
        | inl over ↦ rw over tt
        | inr live ↦ rw live (key, id, s, secret, signed, e, ground arith, refl)
      ]

  verify_extracted-Verified :
      (token : Text) (now : ℕ) (w : World C L) (o : Outcome ImpersonationError (Option Text))
      → extract_session_id out config token ≡ o
      → VerifiedOutcome token now w (verify_extracted cache out config now w o).0
  verify_extracted-Verified token now w (thrown e) p = tt
  verify_extracted-Verified token now w (returned none) p = tt
  verify_extracted-Verified token now w (returned (some id)) p =
      let (key, secret, signed) = extracted-Signed out config token id p in
      verify_found-Verified token id key now w (cache.get id now w.cache) refl secret signed

  -- Whoever verifies with a context has presented an id with a signature whose bytes are those of
  -- the id's HMAC under the configured secret, and the cache holds a session under that id that is
  -- not over; the context is that session's.
  pub verify-Verified :
      (token : Text) (now : ℕ) (w : World C L) {context : Context} {w' : World C L}
      → verify cache out config now token w ≡ (returned (some context), w')
      → Verified token now w (some context)
  unfolding verify
  verify-Verified token now w {context} e =
      subst (VerifiedOutcome token now w) (ap (λ r. r.0) e)
        (verify_extracted-Verified token now w (extract_session_id out config token) refl)

  -- What `verify` answers about a session that the cache holds, or does not.
  abbrev pub answer : ℕ → Option Session → Option Context
  answer now none = none
  answer now (some s) = if leb s.expires_at now then none else some (context_of s)

  verify_found-answer :
      (now : ℕ) (id : Text) (found : Option Session) (w : World C L)
      → (verify_found cache out config now id found w).0 ≡ answer now found
  unfolding verify_found
  verify_found-answer now id none w = refl
  verify_found-answer now id (some s) w = elim (Bool-cases (leb s.expires_at now)) [
    | inl over ↦ rw over
    | inr live ↦ rw live
  ]

  pub verify-answer :
      (now : ℕ) (token id : Text) (w : World C L)
      → extract_session_id out config token ≡ returned (some id)
      → (verify cache out config now token w).0 ≡ returned (answer now (cache.get id now w.cache))
  unfolding verify
  verify-answer now token id w e =
      ap (λ o. (verify_extracted cache out config now w o).0) e
      ∙ ap returned (verify_found-answer now id (cache.get id now w.cache) w)

  start-begin_session :
      (id key : Text) (now : ℕ) (opts : StartOptions) (w : World C L)
      → secret_of config ≡ returned key
      → is_clean_id opts.target_user_id ≡ true
      → is_clean_id opts.admin_id ≡ true
      → start cache out config id now opts w ≡ (
        returned (begin_session cache out config id now opts w key).0,
        (begin_session cache out config id now opts w key).1,
      )
  unfolding start
  start-begin_session id key now opts w secret target admin =
      ap (started cache out config id now opts w) secret ∙ rw (target, admin) refl

  abbrev live_until : ℕ → ℕ → Session → Option Context
  live_until later deadline s = if ltb later deadline then some (context_of s) else none

  answer-set :
      (id : Text) (s : Session) (ttl now later : ℕ) (c : C)
      → s.expires_at ≡ now + ttl
      → answer later (cache.get id later (cache.set id s ttl now c))
        ≡ live_until later (now + ttl) s
  answer-set id s ttl now later c e =
      let same : (id == id) ≡ true = beq_refl id in
      let found : cache.get id later (cache.set id s ttl now c)
          ≡ (if ltb later (now + ttl) then some s else none) =
        laws.get-set id id s ttl now later c ∙ rw same refl in
      ap (answer later) found ∙ (elim (Bool-cases (ltb later (now + ttl))) [
        | inl live ↦
            let open_still : leb s.expires_at later ≡ false = ground arith in
            rw (live, open_still) refl
        | inr over ↦ rw over refl
      ])

  -- A session that is started with ids that are clean, under a secret that is fit, gives a token
  -- that verifies as exactly the session's tenant, user and admin until the clamped duration is
  -- over, and as nobody from then on.
  pub verify-start :
      (id key : Text) (now : ℕ) (opts : StartOptions) (w : World C L)
      → secret_of config ≡ returned key
      → IsStrong out key id
      → is_clean_id opts.target_user_id ≡ true
      → is_clean_id opts.admin_id ≡ true
      → (result : StartResult) × (w' : World C L) × (start cache out config id now opts w
          ≡ (returned result, w'))
        × ((later : ℕ)
            → (verify cache out config later result.token w').0
              ≡ returned (
                  if ltb later (now + duration_of config opts * 1000)
                  then some
                      (context_of (session_of id (out.iso now) now opts (duration_of config opts)))
                  else none))
  verify-start id key now opts w secret strong target admin =
      let (result, w') = begin_session cache out config id now opts w key in
      let duration = duration_of config opts in
      let session = session_of id (out.iso now) now opts duration in
      (
        result,
        w',
        start-begin_session id key now opts w secret target admin,
        (λ later.
            verify-answer later (sign out key id) id w'
              (extract-sign out config key id secret strong)
            ∙ ap returned (answer-set id session (duration * 1000) now later w.cache refl)),
      )

  gone_answer :
      (id : Text) (now : ℕ) (c : C) → answer now (cache.get id now (cache.delete id c)) ≡ none
  gone_answer id now c =
      let same : (id == id) ≡ true = beq_refl id in
      let gone : cache.get id now (cache.delete id c) ≡ none =
        laws.get-delete id id now c ∙ rw same refl in
      ap (answer now) gone

  -- What is left of a session behind `stop`, by what `stop` answers.
  abbrev Stopped : Text → Outcome ImpersonationError Bool × World C L → Type 0
  Stopped token (thrown e, w') = Unit
  Stopped token (returned false, w') = Unit
  Stopped token (returned true, w') =
      (later : ℕ) → (verify cache out config later token w').0 ≡ returned none

  stopped-Stopped :
      (token id : Text) (found : Option Session) (w : World C L)
      → extract_session_id out config token ≡ returned (some id)
      → Stopped token (
        returned (stopped cache out config id found w).0,
        (stopped cache out config id found w).1,
      )
  stopped-Stopped token id none w e = tt
  stopped-Stopped token id (some s) w e = λ later.
      let gone = (stopped cache out config id (some s) w).1 in
      verify-answer later token id gone e ∙ ap returned (gone_answer id later w.cache)

  stop_extracted-Stopped :
      (token : Text) (now : ℕ) (w : World C L) (o : Outcome ImpersonationError (Option Text))
      → extract_session_id out config token ≡ o
      → Stopped token (stop_extracted cache out config now w o)
  stop_extracted-Stopped token now w (thrown e) p = tt
  stop_extracted-Stopped token now w (returned none) p = tt
  stop_extracted-Stopped token now w (returned (some id)) p =
      stopped-Stopped token id (cache.get id now w.cache) w p

  -- In the state that a `stop` with the answer true leaves, its token verifies as nobody, at whatever
  -- time.
  pub verify-stop :
      (token : Text) (now later : ℕ) (w : World C L) {w' : World C L}
      → stop cache out config now token w ≡ (returned true, w')
      → (verify cache out config later token w').0 ≡ returned none
  unfolding stop
  verify-stop token now later w e =
      subst (Stopped token) e
        (stop_extracted-Stopped token now w (extract_session_id out config token) refl) later
