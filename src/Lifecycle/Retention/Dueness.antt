-- ===== src/Lifecycle/Retention/Dueness.antt =====
-- When src/services/backup_retention_service.ts asks for a new backup.
use adonisjs_lasagna_multite.Prelude.{
  ℕ, ◌+◌, ◌*◌, ◌≤◌, ◌≡◌, ◌↔◌, refl, sym, ap, subst, ◌∙◌, inl, inr, Bool, true, false, Option, none,
  some, List, [], ◌∷◌, arith, All, Listed, leb, Bool-cases,
}
use adonisjs_lasagna_multite.Prelude.Effects.{returned}
use adonisjs_lasagna_multite.Lifecycle.Retention.{
  Backup, Tier, Config, get_tier_for, Parse, with_time, times, latest, is_due, due_in,
  should_backup,
}

module _ (span now : ℕ) where
  -- All times are at least the span ago.
  abbrev IsPast : List ℕ → Type 0
  IsPast ts = All (λ t. t + span ≤ now) ts

  latest_iff : (t : ℕ) (ts : List ℕ) → (latest t ts + span ≤ now) ↔ IsPast (t ∷ ts)
  latest_iff t [] = ((λ h. (h, tt)), (λ h. h.0))
  latest_iff t (u ∷ ts) = elim (Bool-cases (leb t u)) [
    | inl later ↦
        let (to, from) = latest_iff u ts in
        rw later ((λ h. (omega (arith, (to h).0, later_le t u later), to h)), (λ h. from h.1))
    | inr earlier ↦
        let (to, from) = latest_iff t ts in
        rw earlier (
          (λ h. ((to h).0, (omega (arith, (to h).0, earlier_le t u earlier), (to h).1))),
          (λ h. from (h.0, h.1.1)),
        )
  ]
    where
      later_le : (t u : ℕ) → leb t u ≡ true → t ≤ u
      later_le t u h = ground arith

      earlier_le : (t u : ℕ) → leb t u ≡ false → u ≤ t
      earlier_le t u h = ground arith

module _ (parse : Parse) (span now : ℕ) where
  -- Every backup whose timestamp can be read is at least the span old.
  abbrev pub AllOld : List Backup → Type 0
  AllOld backups =
      (b : Backup) (t : ℕ) → Listed b backups → parse b.timestamp ≡ some t → t + span ≤ now

  times_iff : (backups : List Backup) → IsPast span now (times parse backups) ↔ AllOld backups
  times_iff [] = ((λ h b t none_left e. elim none_left [ ]), (λ h. tt))
  times_iff (b ∷ bs) = with_parsed (parse b.timestamp) refl (times_iff bs)
    where
      with_parsed :
          (o : Option ℕ)
          → parse b.timestamp ≡ o
          → IsPast span now (times parse bs) ↔ AllOld bs
          → IsPast span now (with_time o (times parse bs)) ↔ AllOld (b ∷ bs)
      with_parsed none e (to, from) = (
        (λ h c t at p. elim at [
          | inl same ↦ absurd (cc (e, p, ap (λ x. parse x.timestamp) same))
          | inr rest ↦ to h c t rest p
        ]),
        (λ h. from (λ c t rest p. h c t (inr rest) p)),
      )
      with_parsed (some u) e (to, from) = (
        (λ h c t at p. elim at [
          | inl same ↦
              let read : some u ≡ some t = sym e ∙ ap (λ x. parse x.timestamp) same ∙ p in
              let equal : u ≡ t = cc read in subst (λ x. x + span ≤ now) equal h.0
          | inr rest ↦ to h.1 c t rest p
        ]),
        (λ h. (h b u (inl refl) e, from (λ c t rest p. h c t (inr rest) p))),
      )

is_due_iff :
    (tier : Tier) (now : ℕ) (ts : List ℕ)
    → (is_due tier now ts ≡ true) ↔ IsPast (tier.interval_hours * 3600000) now ts
is_due_iff tier now [] = ((λ h. tt), (λ h. refl))
is_due_iff tier now (t ∷ ts) =
    let (to, from) = latest_iff (tier.interval_hours * 3600000) now t ts in
    ((λ h. to (ground arith)), (λ h. let le = from h in ground arith))

-- For the tier of the tenant a backup is due exactly when each backup whose timestamp can be read
-- is at least the interval of the tier old; so it is due where there is none.
pub should_backup_iff :
    (parse : Parse) (config : Option Config) (backups : List Backup) (now : ℕ) (tier : Tier)
    → get_tier_for config ≡ returned tier
    → (due : Bool) × (should_backup parse config backups now ≡ returned due)
      × ((due ≡ true) ↔ AllOld parse (tier.interval_hours * 3600000) now backups)
unfolding should_backup
should_backup_iff parse config backups now tier found =
    let (to, from) = is_due_iff tier now (times parse backups) in
    let (there, back) = times_iff parse (tier.interval_hours * 3600000) now backups in
    (
      is_due tier now (times parse backups),
      ap (due_in parse backups now) found,
      ((λ h. there (to h)), (λ h. from (back h))),
    )
