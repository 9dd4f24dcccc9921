-- ===== src/Lifecycle/Purge/Expiry.antt =====
-- Which tenants src/commands/tenant_purge_expired.ts purges.
use adonisjs_lasagna_multite.Prelude.{
  ℕ, suc, ◌+◌, ◌*◌, ◌≤◌, ◌≡◌, ◌⊎◌, ◌↔◌, refl, sym, subst, inl, inr, Bool, true, false, ◌&&◌, not,
  Option, none, some, List, [], ◌∷◌, arith, Listed, Listed-filter, length, Bool-cases,
}
use adonisjs_lasagna_multite.Prelude.Effects.{Outcome, returned, thrown}
use adonisjs_lasagna_multite.Lifecycle.Repository.{
  Tenant, Repository, Shown, is_deleted, all_tenants, from_initial,
}
use adonisjs_lasagna_multite.Lifecycle.Repository.Refinement.{
  Command, Tenants, Answers, apply_each, apply_each-Answers, meant_each, meant_initial,
}
use adonisjs_lasagna_multite.Lifecycle.Jobs.{Driver, Services}
use adonisjs_lasagna_multite.Lifecycle.Purge.{
  Flags, Tally, is_expired, retention_of, candidates, purge_one, counted, purge_each, none_purged,
  purge_with, purge_found, run_purge,
}

-- The tenant was deleted, and that is at least so many days ago.
abbrev pub IsExpired : Tenant → ℕ → ℕ → Type 0
IsExpired t retention_days now =
    (at : ℕ) × (t.deleted_at ≡ some at) × (at + retention_days * 86400000 ≤ now)

is_expired_iff :
    (t : Tenant) (retention_days now : ℕ)
    → ((is_deleted t && is_expired t.deleted_at retention_days now) ≡ true)
      ↔ IsExpired t retention_days now
unfolding is_expired
is_expired_iff t retention_days now = expired t.deleted_at
  where
    expired :
        (o : Option ℕ)
        → (((elim o as (λ _. Bool) [ none ↦ false | some _ ↦ true ])
              && is_expired o retention_days now)
            ≡ true)
          ↔ ((at : ℕ) × (o ≡ some at) × (at + retention_days * 86400000 ≤ now))
    expired none = ((λ h. absurd cc), (λ (at, e, le). absurd cc))
    expired (some n) = (
      (λ h. (n, refl, ground arith)),
      (λ (at, e, le).
          let same : n ≡ at = cc e in
          let le' : n + retention_days * 86400000 ≤ now =
            subst (λ x. x + retention_days * 86400000 ≤ now) (sym same) le in
          ground arith),
    )

candidates_iff :
    (retention_days now : ℕ) (rows : Repository) (tenants : Tenants) (t : Tenant)
    → Answers rows tenants
    → Listed t (candidates retention_days now rows)
      ↔ ((tenants t.id ≡ some t) × IsExpired t retention_days now)
unfolding candidates
candidates_iff retention_days now rows tenants t (_, listing, _) =
    let every : Shown = record { include_deleted = true; statuses = none } in
    let (to, from) =
      Listed-filter (λ u. is_deleted u && is_expired u.deleted_at retention_days now) t
        (all_tenants every rows) in
    let (shown, hidden) = listing every t in
    let (there, back) = is_expired_iff t retention_days now in
    (
      (λ h. ((shown (to h).0).0, there (to h).1)),
      (λ h. from (hidden (h.0, (inl refl, tt)), back h.1)),
    )

-- The run purges nothing.
abbrev pub IsIdle : Flags → Type 0
IsIdle flags = (flags.dry_run ≡ true) ⊎ ((flags.force ≡ false) × (flags.confirmed ≡ false))

-- The run is allowed to purge.
abbrev pub IsAllowed : Flags → Type 0
IsAllowed flags = (flags.dry_run ≡ false) × ((flags.force ≡ true) ⊎ (flags.confirmed ≡ true))

module _ {O E Meta Copied : Type 0} (s : Services O E Meta Copied) where
  counted-total :
      (r : Outcome E (Unit {0})) (tally : Tally)
      → (counted s r tally).purged + (counted s r tally).failed ≡ suc (tally.purged + tally.failed)
  counted-total (returned _) tally = omega arith
  counted-total (thrown e) tally = omega arith

  purge_each-total :
      (driver : Driver O E) (ts : List Tenant) (tally : Tally) (o : O)
      → (purge_each s driver ts (tally, o)).0.purged + (purge_each s driver ts (tally, o)).0.failed
        ≡ length ts + (tally.purged + tally.failed)
  purge_each-total driver [] tally o = omega arith
  purge_each-total driver (t ∷ ts) tally o =
      let (result, o') = purge_one s driver t o in
      omega
        (arith, purge_each-total driver ts (counted s result tally) o', counted-total result tally)

  -- Every candidate is counted as purged or as failed, unless there is no driver.
  abbrev pub Tallied : List Tenant → Outcome E Tally × O → Type 0
  Tallied ts (returned tally, o) = tally.purged + tally.failed ≡ length ts
  Tallied ts (thrown e, o) = Unit

  purge_with-Tallied :
      (ts : List Tenant) (r : Outcome E (Driver O E) × O) → Tallied ts (purge_with s ts r)
  purge_with-Tallied ts (thrown e, o) = tt
  purge_with-Tallied ts (returned driver, o) =
      omega (arith, purge_each-total driver ts (none_purged s) o)

  purge_found-idle :
      (flags : Flags) (ts : List Tenant) (o : O)
      → IsIdle flags
      → purge_found s flags ts o ≡ (returned (none_purged s), o)
  purge_found-idle flags [] o h = refl
  purge_found-idle flags (t ∷ ts) o (inl dry) = simp dry
  purge_found-idle flags (t ∷ ts) o (inr (asked, declined)) = elim (Bool-cases flags.dry_run) [
    | inl dry ↦ simp dry
    | inr wet ↦ simp (wet, asked, declined)
  ]

  purge_found-Tallied :
      (flags : Flags) (ts : List Tenant) (o : O)
      → IsAllowed flags
      → Tallied ts (purge_found s flags ts o)
  purge_found-Tallied flags [] o h = refl
  purge_found-Tallied flags (t ∷ ts) o (wet, allowed) =
      let tested : (not flags.force && not flags.confirmed) ≡ false = elim allowed [
        | inl forced ↦ ground arith
        | inr confirmed ↦ ground arith
      ] in
      let same : purge_found s flags (t ∷ ts) o ≡ purge_with s (t ∷ ts) (s.active_driver o) =
        simp (wet, tested) in
      subst (Tallied (t ∷ ts)) (sym same) (purge_with-Tallied (t ∷ ts) (s.active_driver o))

  -- On the tenants of any repository that was built from initial ones by commands: the candidates of
  -- a purge are exactly the tenants whose deletion is at least the retention days ago; a dry run, and
  -- one that is neither forced nor confirmed, calls nothing; and any other run counts each candidate
  -- once, as purged or as failed, unless there is no driver.
  pub run_purge-Expired :
      (initial : List Tenant) (commands : List Command) (flags : Flags) (configured : Option ℕ)
      (o : O)
      → ((t : Tenant)
          → Listed t (
              candidates
                (retention_of flags configured)
                (s.now o)
                (apply_each commands (from_initial initial [])))
            ↔ ((meant_each commands (meant_initial initial (λ id. none)) t.id ≡ some t)
                × IsExpired t (retention_of flags configured) (s.now o)))
        × (IsIdle flags
            → run_purge s flags configured (apply_each commands (from_initial initial [])) o
              ≡ (returned (none_purged s), o))
        × (IsAllowed flags
            → Tallied
                (candidates
                  (retention_of flags configured)
                  (s.now o)
                  (apply_each commands (from_initial initial [])))
                (run_purge s flags configured (apply_each commands (from_initial initial [])) o))
  unfolding run_purge
  run_purge-Expired initial commands flags configured o =
      let rows = apply_each commands (from_initial initial []) in
      let tenants = meant_each commands (meant_initial initial (λ id. none)) in
      let days = retention_of flags configured in
      (
        (λ t. candidates_iff days (s.now o) rows tenants t (apply_each-Answers initial commands)),
        (λ idle. purge_found-idle flags (candidates days (s.now o) rows) o idle),
        (λ allowed. purge_found-Tallied flags (candidates days (s.now o) rows) o allowed),
      )
