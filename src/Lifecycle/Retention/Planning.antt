-- ===== src/Lifecycle/Retention/Planning.antt =====
-- Which backups src/services/backup_retention_service.ts keeps, and when a new one is due.
use adonisjs_lasagna_multite.Prelude.{
  ℕ, zero, suc, ◌≤◌, ◌≡◌, refl, sym, ap, subst, ◌∙◌, inl, inr, Option, some, List, [], ◌∷◌, ◌++◌,
  arith, All, Listed, or_default, length, length-take, take, drop, take-append-drop, leb,
  Bool-cases,
}
use Prim.Native.Nat.{min}
use mathlib.Core.List.{Perm}
use mathlib.Core.List.Perm
use adonisjs_lasagna_multite.Prelude.Effects.{returned, thrown}
use adonisjs_lasagna_multite.Lifecycle.Retention.{
  Backup, Tier, Config, Plan, TierNotDeclared, get_tier_for, Parse, stays, insert_backup,
  sort_backups, plan_in, plan_retention,
}

module _ (parse : Parse) where
  insert_backup-perm : (b : Backup) (bs : List Backup) → Perm (insert_backup parse b bs) (b ∷ bs)
  insert_backup-perm b [] = Perm.rfl
  insert_backup-perm b (c ∷ bs) =
      elim (Bool-cases (stays (parse b.timestamp) (parse c.timestamp))) [
        | inl newer ↦ rw newer Perm.rfl
        | inr older ↦
            rw older (Perm.trans (Perm.cons c (insert_backup-perm b bs)) (Perm.swap b c bs))
      ]

  sort_backups-perm : (bs : List Backup) → Perm (sort_backups parse bs) bs
  sort_backups-perm [] = Perm.rfl
  sort_backups-perm (b ∷ bs) =
      Perm.trans (insert_backup-perm b (sort_backups parse bs)) (Perm.cons b (sort_backups-perm bs))

  -- The time of a backup whose timestamp can be read.
  abbrev time_of : Backup → ℕ
  time_of b = or_default (parse b.timestamp) 0

  abbrev pub IsReadable : Backup → Type 0
  IsReadable b = (t : ℕ) × (parse b.timestamp ≡ some t)

  insert_backup-IsReadable :
      (b : Backup) (bs : List Backup)
      → IsReadable b
      → All IsReadable bs
      → All IsReadable (insert_backup parse b bs)
  insert_backup-IsReadable b [] h hs = (h, tt)
  insert_backup-IsReadable b (c ∷ bs) h (hc, hs) =
      elim (Bool-cases (stays (parse b.timestamp) (parse c.timestamp))) [
        | inl newer ↦ rw newer (h, (hc, hs))
        | inr older ↦ rw older (hc, insert_backup-IsReadable b bs h hs)
      ]

  sort_backups-IsReadable :
      (bs : List Backup) → All IsReadable bs → All IsReadable (sort_backups parse bs)
  sort_backups-IsReadable [] h = tt
  sort_backups-IsReadable (b ∷ bs) (h, hs) =
      insert_backup-IsReadable b (sort_backups parse bs) h (sort_backups-IsReadable bs hs)

  -- Where both timestamps can be read, the newer backup comes first.
  stays-leb :
      (b c : Backup)
      → IsReadable b
      → IsReadable c
      → stays (parse b.timestamp) (parse c.timestamp) ≡ leb (time_of c) (time_of b)
  stays-leb b c (t, bt) (u, cu) = rw (bt, cu) refl

  -- No backup of the list is newer.
  abbrev IsAbove : ℕ → List Backup → Type 0
  IsAbove n bs = All (λ c. time_of c ≤ n) bs

  abbrev IsNewestFirst : List Backup → Type 0
  IsNewestFirst [] = Unit
  IsNewestFirst (b ∷ bs) = IsAbove (time_of b) bs × IsNewestFirst bs

  insert_backup-IsAbove :
      (n : ℕ) (b : Backup) (bs : List Backup)
      → time_of b ≤ n
      → IsAbove n bs
      → IsAbove n (insert_backup parse b bs)
  insert_backup-IsAbove n b [] h hs = (h, tt)
  insert_backup-IsAbove n b (c ∷ bs) h (hc, hs) =
      elim (Bool-cases (stays (parse b.timestamp) (parse c.timestamp))) [
        | inl newer ↦ rw newer (h, (hc, hs))
        | inr older ↦ rw older (hc, insert_backup-IsAbove n b bs h hs)
      ]

  IsAbove-weaken : (m n : ℕ) (bs : List Backup) → m ≤ n → IsAbove m bs → IsAbove n bs
  IsAbove-weaken m n [] le h = tt
  IsAbove-weaken m n (b ∷ bs) le (hb, hs) = (omega (arith, hb, le), IsAbove-weaken m n bs le hs)

  insert_backup-IsNewestFirst :
      (b : Backup) (bs : List Backup)
      → IsReadable b
      → All IsReadable bs
      → IsNewestFirst bs
      → IsNewestFirst (insert_backup parse b bs)
  insert_backup-IsNewestFirst b [] rb rs h = (tt, tt)
  insert_backup-IsNewestFirst b (c ∷ bs) rb (rc, rs) (hc, hs) =
      let as_times = stays-leb b c rb rc in
      elim (Bool-cases (stays (parse b.timestamp) (parse c.timestamp))) [
        | inl newer ↦
            let le : time_of c ≤ time_of b = ground (arith, sym as_times ∙ newer) in
            rw newer ((le, IsAbove-weaken (time_of c) (time_of b) bs le hc), (hc, hs))
        | inr older ↦
            let le : time_of b ≤ time_of c = ground (arith, sym as_times ∙ older) in
            rw older (
              insert_backup-IsAbove (time_of c) b bs le hc,
              insert_backup-IsNewestFirst b bs rb rs hs,
            )
      ]

  sort_backups-IsNewestFirst :
      (bs : List Backup) → All IsReadable bs → IsNewestFirst (sort_backups parse bs)
  sort_backups-IsNewestFirst [] h = tt
  sort_backups-IsNewestFirst (b ∷ bs) (h, hs) =
      insert_backup-IsNewestFirst b (sort_backups parse bs) h (sort_backups-IsReadable bs hs)
        (sort_backups-IsNewestFirst bs hs)

  Listed-IsAbove :
      (n : ℕ) (b : Backup) (bs : List Backup) → IsAbove n bs → Listed b bs → time_of b ≤ n
  Listed-IsAbove n b [] h none_left = elim none_left [ ]
  Listed-IsAbove n b (c ∷ bs) (hc, hs) (inl same) = subst (λ x. time_of x ≤ n) same hc
  Listed-IsAbove n b (c ∷ bs) (hc, hs) (inr rest) = Listed-IsAbove n b bs hs rest

  Listed-drop : (n : ℕ) (b : Backup) (bs : List Backup) → Listed b (drop n bs) → Listed b bs
  Listed-drop zero b bs h = h
  Listed-drop (suc n) b [] h = h
  Listed-drop (suc n) b (c ∷ bs) h = inr (Listed-drop n b bs h)

  cut-newest :
      (n : ℕ) (bs : List Backup) (k p : Backup)
      → IsNewestFirst bs
      → Listed k (take n bs)
      → Listed p (drop n bs)
      → time_of p ≤ time_of k
  cut-newest zero bs k p h none_left later = elim none_left [ ]
  cut-newest (suc n) [] k p h none_left later = elim none_left [ ]
  cut-newest (suc n) (b ∷ bs) k p (above, h) (inl same) later =
      subst (λ x. time_of p ≤ time_of x) same
        (Listed-IsAbove (time_of b) p bs above (Listed-drop n p bs later))
  cut-newest (suc n) (b ∷ bs) k p (above, h) (inr early) later = cut-newest n bs k p h early later

  -- A plan under a tier: it loses no backup and invents none, keeps as many as the tier says or all,
  -- and, where every timestamp can be read, keeps none that is older than one it purges.
  abbrev pub Planned : Tier → List Backup → Plan → Type 0
  Planned tier backups plan =
      Perm (plan.kept ++ plan.purged) backups
      × (length plan.kept ≡ min tier.keep_last (length (plan.kept ++ plan.purged)))
      × (All IsReadable backups
          → (k p : Backup) (a b : ℕ) → Listed k plan.kept
          → Listed p plan.purged
          → parse k.timestamp ≡ some a
          → parse p.timestamp ≡ some b
          → b ≤ a)

  parsed_time : (b : Backup) (a : ℕ) → parse b.timestamp ≡ some a → time_of b ≡ a
  parsed_time b a e = rw e refl

  -- For the tier of the tenant, the backups kept and purged are together the backups there are; as
  -- many are kept as the tier says, or all where there are fewer; and where every timestamp can be
  -- read, no backup that is kept is older than one that is purged. A tier that is not declared is refused.
  pub plan_retention-Planned :
      (config : Option Config) (backups : List Backup)
      → ((tier : Tier)
          → get_tier_for config ≡ returned tier
          → (plan : Plan) × (plan_retention parse config backups ≡ returned plan)
            × Planned tier backups plan)
        × ((e : TierNotDeclared)
            → get_tier_for config ≡ thrown e
            → plan_retention parse config backups ≡ thrown e)
  unfolding plan_retention
  plan_retention-Planned config backups = (
    (λ tier found.
        let sorted = sort_backups parse backups in
        let whole = take-append-drop tier.keep_last sorted in
        (
          record { kept = take tier.keep_last sorted; purged = drop tier.keep_last sorted },
          ap (plan_in parse backups) found,
          (
            subst (λ bs. Perm bs backups) (sym whole) (sort_backups-perm backups),
            length-take tier.keep_last sorted
                ∙ ap (λ bs. min tier.keep_last (length bs)) (sym whole),
            (λ readable k p a b kept purged ka pb.
                subst (λ x. x ≤ a) (parsed_time p b pb)
                  (subst (λ x. time_of p ≤ x) (parsed_time k a ka)
                    (cut-newest tier.keep_last sorted k p
                      (sort_backups-IsNewestFirst backups readable) kept purged))),
          ),
        )),
    (λ e missing. ap (plan_in parse backups) missing),
  )
