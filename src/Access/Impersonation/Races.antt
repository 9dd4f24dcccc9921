-- ===== src/Access/Impersonation/Races.antt =====
-- `verify` of src/services/impersonation_service.ts awaits the cache twice: it reads the session,
-- and on the first use it writes the session back. What another call does between the two.
use adonisjs_lasagna_multite.Prelude.{
  ℕ, ◌+◌, ◌-◌, ◌<◌, ◌≡◌, refl, ap, ◌∙◌, true, false, none, some, arith, leb, ltb, if◌then◌else◌,
  ◌==◌, list_eq, beq_refl, Text,
}
use adonisjs_lasagna_multite.Prelude.Effects.{returned}
use adonisjs_lasagna_multite.Access.Impersonation.{
  Session, CacheOps, CacheLaws, Outside, World, Config, extract_session_id, context_of, stop,
  verify_found, verify,
}
use adonisjs_lasagna_multite.Access.Impersonation.Sessions.{answer, verify-answer, verify-stop}

module _ {C L : Type 0} (cache : CacheOps C) (laws : CacheLaws cache) (out : Outside L)
    (config : Config) where
  marked-answer :
      (now later : ℕ) (id : Text) (s : Session) (w : World C L)
      → s.first_verify_at ≡ none
      → now < s.expires_at
      → later < s.expires_at
      → answer cache laws out config later
          (cache.get id later (verify_found cache out config now id (some s) w).1.cache)
        ≡ some (context_of s)
  unfolding verify_found
  marked-answer now later id s w unused live soon =
      let open_still : leb s.expires_at now ≡ false = ground arith in
      let same : (id == id) ≡ true = beq_refl id in
      let remaining = if leb (s.expires_at - now) 1000 then 1000 else s.expires_at - now in
      let used = record s { first_verify_at = some (out.iso now) } in
      let in_time : ltb later (now + remaining) ≡ true = ground arith in
      let stored : cache.get id later (cache.set id used remaining now w.cache) ≡ some used =
        laws.get-set id id used remaining now later w.cache ∙ rw (same, in_time) refl in
      let not_over : leb s.expires_at later ≡ false = ground arith in
      rw (open_still, unused) (ap (answer cache laws out config later) stored ∙ rw not_over refl)

  -- A revocation that falls between the two cache calls of a session's first `verify` is undone:
  -- `stop` answers true and the token verifies as nobody, yet the write then puts the session back,
  -- and until it is over its token verifies again as the same context.
  pub verify-stop_raced :
      (token id : Text) (now later : ℕ) (s : Session) (w w' : World C L)
      → extract_session_id out config token ≡ returned (some id)
      → cache.get id now w.cache ≡ some s
      → s.first_verify_at ≡ none
      → later < s.expires_at
      → now < s.expires_at
      → stop cache out config now token w ≡ (returned true, w')
      → ((verify cache out config later token w').0 ≡ returned none)
        × ((verify cache out config later token
              (verify_found cache out config now id (cache.get id now w.cache) w').1).0
            ≡ returned (some (context_of s)))
  verify-stop_raced token id now later s w w' e found unused soon live stopped = (
    verify-stop cache laws out config token now later w stopped,
    verify-answer cache laws out config later token id
          (verify_found cache out config now id (cache.get id now w.cache) w').1 e
        ∙ ap returned (
            ap
              (λ o.
                answer cache laws out config later
                  (cache.get id later (verify_found cache out config now id o w').1.cache))
              found
            ∙ marked-answer now later id s w' unused live soon),
  )
