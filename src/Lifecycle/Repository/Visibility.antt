-- ===== src/Lifecycle/Repository/Visibility.antt =====
-- The tests of src/testing/mock_repository.ts on a tenant: which of them are visible, and with which
-- status.
use adonisjs_lasagna_multite.Prelude.{
  ◌≡◌, ◌⊎◌, ◌↔◌, inl, inr, refl, sym, Bool, true, false, ◌&&◌, not, Option, none, some, List, ℕ,
  any, any-Listed, Listed, if◌then◌else◌, subst, ◌==◌, list_eq, list_beq_iff, Text,
}
use adonisjs_lasagna_multite.Lifecycle.Repository.{
  provisioning, active, suspended, failed, deleted, same_status, has_status, is_deleted, Tenant,
  Status, Shown, unless_deleted, is_shown, is_wanted,
}

same_status-eq : (a b : Status) → same_status a b ≡ true → a ≡ b
same_status-eq provisioning provisioning h = refl
same_status-eq provisioning active h = absurd cc
same_status-eq provisioning suspended h = absurd cc
same_status-eq provisioning failed h = absurd cc
same_status-eq provisioning deleted h = absurd cc
same_status-eq active provisioning h = absurd cc
same_status-eq active active h = refl
same_status-eq active suspended h = absurd cc
same_status-eq active failed h = absurd cc
same_status-eq active deleted h = absurd cc
same_status-eq suspended provisioning h = absurd cc
same_status-eq suspended active h = absurd cc
same_status-eq suspended suspended h = refl
same_status-eq suspended failed h = absurd cc
same_status-eq suspended deleted h = absurd cc
same_status-eq failed provisioning h = absurd cc
same_status-eq failed active h = absurd cc
same_status-eq failed suspended h = absurd cc
same_status-eq failed failed h = refl
same_status-eq failed deleted h = absurd cc
same_status-eq deleted provisioning h = absurd cc
same_status-eq deleted active h = absurd cc
same_status-eq deleted suspended h = absurd cc
same_status-eq deleted failed h = absurd cc
same_status-eq deleted deleted h = refl

same_status_refl : (a : Status) → same_status a a ≡ true
same_status_refl provisioning = refl
same_status_refl active = refl
same_status_refl suspended = refl
same_status_refl failed = refl
same_status_refl deleted = refl

-- The tenant is not deleted, or deleted ones are asked for too.
abbrev pub IsVisible : Bool → Tenant → Type 0
IsVisible include_deleted t = (include_deleted ≡ true) ⊎ (t.deleted_at ≡ none)

-- The status is one of those asked for, if any are.
abbrev pub HasStatus : Option (List Status) → Status → Type 0
HasStatus none status = Unit
HasStatus (some statuses) status = Listed status statuses

pub has_status_iff :
    (statuses : Option (List Status)) (status : Status)
    → (has_status statuses status ≡ true) ↔ HasStatus statuses status
has_status_iff none status = ((λ h. tt), (λ h. refl))
has_status_iff (some statuses) status =
    any-Listed (same_status status) status
      (λ x. (
        (λ h. sym (same_status-eq status x h)),
        (λ e. subst (λ y. same_status status y ≡ true) (sym e) (same_status_refl status)),
      ))
      statuses

hidden_iff :
    (include_deleted : Bool) (t : Tenant)
    → ((not include_deleted && is_deleted t) ≡ false) ↔ IsVisible include_deleted t
hidden_iff true t = ((λ h. inl refl), (λ h. refl))
hidden_iff false t = alive t.deleted_at
  where
    alive :
        (at : Option ℕ)
        → ((elim at as (λ _. Bool) [ none ↦ false | some _ ↦ true ]) ≡ false)
          ↔ ((false ≡ true) ⊎ (at ≡ none))
    alive none = ((λ h. inr refl), (λ h. refl))
    alive (some n) =
        ((λ h. absurd cc), (λ h. elim h [ inl wrong ↦ absurd cc | inr wrong ↦ absurd cc ]))

pub is_shown_iff :
    (options : Shown) (t : Tenant)
    → (is_shown options t ≡ true)
      ↔ (IsVisible options.include_deleted t × HasStatus options.statuses t.status)
is_shown_iff options t =
    shown (not options.include_deleted && is_deleted t) refl (hidden_iff options.include_deleted t)
      (has_status_iff options.statuses t.status)
  where
    shown :
        (b : Bool)
        → (not options.include_deleted && is_deleted t) ≡ b
        → ((not options.include_deleted && is_deleted t) ≡ false)
          ↔ IsVisible options.include_deleted t
        → (has_status options.statuses t.status ≡ true) ↔ HasStatus options.statuses t.status
        → ((if b then false else has_status options.statuses t.status) ≡ true)
          ↔ (IsVisible options.include_deleted t × HasStatus options.statuses t.status)
    shown true e (_, back) (to, from) = ((λ h. absurd cc), (λ h. absurd (cc (e, back h.0))))
    shown false e (there, _) (to, from) = ((λ h. (there e, to h)), (λ h. from h.1))

pub is_wanted_iff :
    (ids : List Text) (include_deleted : Bool) (t : Tenant)
    → (is_wanted ids include_deleted t ≡ true) ↔ (Listed t.id ids × IsVisible include_deleted t)
is_wanted_iff ids include_deleted t =
    wanted (any (λ id. id == t.id) ids) (not include_deleted && is_deleted t) refl
      (any-Listed (λ id. id == t.id) t.id (λ id. list_beq_iff id t.id) ids)
      (hidden_iff include_deleted t)
  where
    wanted :
        (b hidden : Bool)
        → (not include_deleted && is_deleted t) ≡ hidden
        → (b ≡ true) ↔ Listed t.id ids
        → ((not include_deleted && is_deleted t) ≡ false) ↔ IsVisible include_deleted t
        → ((if not b then false else not hidden) ≡ true)
          ↔ (Listed t.id ids × IsVisible include_deleted t)
    wanted true true e (to, from) (there, back) =
        ((λ h. absurd cc), (λ h. absurd (cc (e, back h.1))))
    wanted true false e (to, from) (there, back) = ((λ h. (to refl, there e)), (λ h. refl))
    wanted false hidden e (to, from) (there, back) =
        ((λ h. absurd cc), (λ h. absurd (cc (from h.0))))

pub unless_deleted_iff :
    (include_deleted : Bool) (o : Option Tenant) (t : Tenant)
    → (unless_deleted include_deleted o ≡ some t) ↔ ((o ≡ some t) × IsVisible include_deleted t)
unless_deleted_iff include_deleted none t = ((λ h. absurd cc), (λ h. absurd (cc (h.0))))
unless_deleted_iff include_deleted (some u) t =
    visible (not include_deleted && is_deleted u) refl (hidden_iff include_deleted u)
  where
    visible :
        (b : Bool)
        → (not include_deleted && is_deleted u) ≡ b
        → ((not include_deleted && is_deleted u) ≡ false) ↔ IsVisible include_deleted u
        → ((if b then none else some u) ≡ some t)
          ↔ ((some u ≡ some t) × IsVisible include_deleted t)
    visible true e (there, back) = (
      (λ h. absurd cc),
      (λ h.
          let same : t ≡ u = cc (h.0) in
          absurd (cc (e, back (subst (IsVisible include_deleted) same h.1)))),
    )
    visible false e (there, back) = (
      (λ h. let same : u ≡ t = cc h in (h, subst (IsVisible include_deleted) same (there e))),
      (λ h. h.0),
    )
