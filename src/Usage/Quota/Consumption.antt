-- ===== src/Usage/Quota/Consumption.antt =====
-- What `consume` of src/services/quota_service.ts does to the usage.
use adonisjs_lasagna_multite.Prelude.{
  ◌↔◌, Bool-cases, inl, inr, ℕ, ◌+◌, ◌≤◌, ◌≡◌, refl, sym, ap, ◌∙◌, subst, true, Option, none, some,
  arith, ◌==◌, list_eq, beq_refl, Text,
}
use adonisjs_lasagna_multite.Prelude.Effects.{Outcome, returned, thrown}
use adonisjs_lasagna_multite.Usage.Quota.{
  RedisOps, RedisLaws, count_or, PlansConfig, QuotaError, quota_exceeded, get_limit, rolling_key,
  snapshot_key, within, count_at, get_usage, track, check_limit, check, consume_checked, consume,
}

-- A usage that a limit allows; without a limit every one.
abbrev pub IsWithin : Option ℕ → ℕ → Type 0
IsWithin none n = Unit
IsWithin (some limit) n = n ≤ limit

within_iff : (l : Option ℕ) (n : ℕ) → (within l n ≡ true) ↔ IsWithin l n
within_iff none n = ((λ _. tt), (λ _. refl))
within_iff (some limit) n = (ground arith, ground arith)

IsWithin-smaller : (l : Option ℕ) (a b : ℕ) → a ≤ b → IsWithin l b → IsWithin l a
IsWithin-smaller none a b le h = tt
IsWithin-smaller (some limit) a b le h = omega arith

module _ {R : Type 0} (o : RedisOps R) (laws : RedisLaws o) (period tenant quota : Text) where
  -- The rolling counter, 0 where there is none.
  abbrev pub rolling : R → ℕ
  rolling r = count_or 0 (o.get (rolling_key period tenant quota) r)

  get_usage-track :
      (amount : ℕ) (r : R)
      → get_usage (some o) period tenant quota (track (some o) period tenant quota amount r).1
        ≡ rolling r + amount
  unfolding get_usage track
  get_usage-track amount r =
      let key = rolling_key period tenant quota in
      let same : (key == key) ≡ true = beq_refl key in
      let stored : o.get key (o.incr_by key amount r).1 ≡ some (rolling r + amount) =
        laws.get-incr_by key key amount r ∙ rw same refl in
      ap
        (λ c.
          count_at (some o) period tenant c
            (count_or 0 (o.get (snapshot_key tenant quota) (o.incr_by key amount r).1)))
        stored

  rolling-get_usage : (r : R) → rolling r ≤ get_usage (some o) period tenant quota r
  unfolding get_usage
  rolling-get_usage r = ground arith

  incr_by-rolling :
      (amount : ℕ) (r : R) → (track (some o) period tenant quota amount r).0 ≡ rolling r + amount
  unfolding track
  incr_by-rolling amount r = laws.incr_by_lem (rolling_key period tenant quota) amount r

  -- What `consume` makes of an amount under a limit.
  abbrev pub Consumed : Option ℕ → ℕ → R → Outcome QuotaError ℕ × R → Type 0
  Consumed l amount r result =
      let usage = get_usage (some o) period tenant quota in
      (IsWithin l (usage r + amount)
        → (after : R) × (result ≡ (returned (rolling r + amount), after))
          × (usage after ≡ rolling r + amount)
          × IsWithin l (usage after))
      × (¬ IsWithin l (usage r + amount)
          → result ≡ (thrown (quota_exceeded (count_or 0 l) (usage r) amount), r))

  consume_checked-Consumed :
      (l : Option ℕ) (amount : ℕ) (r : R)
      → Consumed l amount r (
          consume_checked
            (some o)
            period
            tenant
            quota
            amount
            r
            (check_limit (some o) period tenant quota amount r (returned l)))
  consume_checked-Consumed l amount r =
      let usage = get_usage (some o) period tenant quota in
      let tracked = track (some o) period tenant quota amount r in
      (
        (λ room.
            let allowed = (within_iff l (usage r + amount)).1 room in
            (
              tracked.1,
              rw allowed (ap (λ n. (returned n, tracked.1)) (incr_by-rolling amount r)),
              get_usage-track amount r,
              subst (IsWithin l) (sym (get_usage-track amount r)) (
                  IsWithin-smaller l (rolling r + amount) (usage r + amount)
                    (omega (arith, rolling-get_usage r)) room),
            )),
        (λ no_room. elim (Bool-cases (within l (usage r + amount))) [
          | inl allowed ↦ absurd (no_room ((within_iff l (usage r + amount)).0 allowed))
          | inr refused ↦ rw refused refl
        ]),
      )

  -- An amount that the usage and the limit leave room for is added to the rolling counter, which
  -- is given back and is the usage from then on, and that usage is within the limit; where the
  -- usage came from the snapshot, since there was no rolling counter, the new usage is the amount
  -- alone. Any other amount is refused with the limit, the usage and the amount, and a plan that is
  -- not declared with its error, and then Redis is left as it was.
  pub consume-Consumed :
      (config : PlansConfig) (amount : ℕ) (r : R)
      → ((l : Option ℕ)
          → get_limit config quota ≡ returned l
          → Consumed l amount r (consume (some o) period tenant config quota amount r))
        × ((e : QuotaError)
            → get_limit config quota ≡ thrown e
            → consume (some o) period tenant config quota amount r ≡ (thrown e, r))
  unfolding consume check
  consume-Consumed config amount r =
      let run = λ (limit : Outcome QuotaError (Option ℕ)).
        consume_checked (some o) period tenant quota amount r
          (check_limit (some o) period tenant quota amount r limit) in
      (
        (λ l e.
            subst (λ limit. Consumed l amount r (run limit)) (sym e)
              (consume_checked-Consumed l amount r)),
        (λ x e. ap run e),
      )
