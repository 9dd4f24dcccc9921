-- ===== src/Lifecycle/Repository/Refinement.antt =====
-- The repository of src/testing/mock_repository.ts as a function from ids to tenants.
use adonisjs_lasagna_multite.Prelude.{
  ℕ, ◌≡◌, ◌⊎◌, ◌↔◌, inl, inr, refl, sym, ap, ◌∙◌, Bool, true, false, Option, none, some, List, [],
  ◌∷◌, All, Listed, Listed-filter, filter, if◌then◌else◌, beq_ne, subst, ◌≢◌, ◌==◌, list_eq,
  list_beq_iff, Bool-cases, Text,
}
use adonisjs_lasagna_multite.Prelude.Maps.{
  lookup, insert, keys, values, Unique, Fresh, lookup-insert,
}
use adonisjs_lasagna_multite.Lifecycle.Repository.{
  Tenant, Status, Repository, Shown, from_initial, add, clear, create, find_by_id, all_tenants,
  where_in, unless_deleted, is_shown, is_wanted,
}
use adonisjs_lasagna_multite.Lifecycle.Repository.Visibility.{
  IsVisible, HasStatus, is_shown_iff, is_wanted_iff, unless_deleted_iff,
}

-- What changes the repository.
pub data Command : Type 0 where
  added : Tenant → Command
  created : Text → ℕ → Text → Text → Status → Command
  cleared : Command

pub apply : Command → Repository → Repository
unfolding add create clear
apply (added t) r = add t r
apply (created fresh now name email status) r = (create fresh now name email status r).1
apply cleared r = clear r

pub apply_each : List Command → Repository → Repository
unfolding apply
apply_each [] r = r
apply_each (c ∷ cs) r = apply_each cs (apply c r)

-- The abstract repository.
abbrev pub Tenants : Type 0
Tenants = Text → Option Tenant

abbrev pub with_tenant : Tenant → Tenants → Tenants
with_tenant t tenants id = if t.id == id then some t else tenants id

-- A command with the tenant that it brings.
abbrev pub meant : Command → Tenants → Tenants
meant (added t) tenants = with_tenant t tenants
meant (created fresh now name email status) tenants =
    with_tenant (create fresh now name email status []).0 tenants
meant cleared tenants = λ id. none

abbrev pub meant_each : List Command → Tenants → Tenants
meant_each [] tenants = tenants
meant_each (c ∷ cs) tenants = meant_each cs (meant c tenants)

abbrev pub meant_initial : List Tenant → Tenants → Tenants
meant_initial [] tenants = tenants
meant_initial (t ∷ ts) tenants = meant_initial ts (with_tenant t tenants)

abbrev StoredUnder : Text × Tenant → Type 0
StoredUnder e = e.0 ≡ e.1.id

-- Each tenant stands once, under its own id, and the repository finds what the function gives.
abbrev pub Refines : Repository → Tenants → Type 0
Refines r tenants = Unique (keys r) × All StoredUnder r × ((id : Text) → lookup id r ≡ tenants id)

insert-StoredUnder :
    (t : Tenant) (r : Repository) → All StoredUnder r → All StoredUnder (insert t.id t r)
insert-StoredUnder t [] h = (refl, tt)
insert-StoredUnder t ((k, u) ∷ r) (own, rest) = elim (Bool-cases (k == t.id)) [
  | inl same ↦ rw same ((list_beq_iff k t.id).0 same, rest)
  | inr other ↦ rw other (own, insert-StoredUnder t r rest)
]

Fresh-insert_other :
    (k : Text) (t : Tenant) (r : Repository)
    → k ≢ t.id
    → Fresh k (keys r)
    → Fresh k (keys (insert t.id t r))
Fresh-insert_other k t [] ne h = ((λ same. ne (sym same)), tt)
Fresh-insert_other k t ((j, u) ∷ r) ne (head, rest) = elim (Bool-cases (j == t.id)) [
  | inl same ↦ rw same (head, rest)
  | inr other ↦ rw other (head, Fresh-insert_other k t r ne rest)
]

insert-once : (t : Tenant) (r : Repository) → Unique (keys r) → Unique (keys (insert t.id t r))
insert-once t [] h = (tt, tt)
insert-once t ((j, u) ∷ r) (head, rest) = elim (Bool-cases (j == t.id)) [
  | inl same ↦ rw same (head, rest)
  | inr other ↦ rw other (
    Fresh-insert_other j t r (λ same. cc (other, (list_beq_iff j t.id).1 same)) head,
    insert-once t r rest,
  )
]

insert-Refines :
    (t : Tenant) (r : Repository) (tenants : Tenants)
    → Refines r tenants
    → Refines (insert t.id t r) (with_tenant t tenants)
insert-Refines t r tenants (once, own, found) = (
  insert-once t r once,
  insert-StoredUnder t r own,
  λ id. lookup-insert t.id id t r ∙ ap (λ o. if t.id == id then some t else o) (found id),
)

apply-Refines :
    (c : Command) (r : Repository) (tenants : Tenants)
    → Refines r tenants
    → Refines (apply c r) (meant c tenants)
unfolding apply
apply-Refines (added t) r tenants h = insert-Refines t r tenants h
apply-Refines (created fresh now name email status) r tenants h =
    insert-Refines (create fresh now name email status []).0 r tenants h
apply-Refines cleared r tenants h = (tt, tt, λ id. refl)

apply_each-Refines :
    (cs : List Command) (r : Repository) (tenants : Tenants)
    → Refines r tenants
    → Refines (apply_each cs r) (meant_each cs tenants)
unfolding apply_each
apply_each-Refines [] r tenants h = h
apply_each-Refines (c ∷ cs) r tenants h =
    apply_each-Refines cs (apply c r) (meant c tenants) (apply-Refines c r tenants h)

from_initial-Refines :
    (ts : List Tenant) (r : Repository) (tenants : Tenants)
    → Refines r tenants
    → Refines (from_initial ts r) (meant_initial ts tenants)
unfolding from_initial
from_initial-Refines [] r tenants h = h
from_initial-Refines (t ∷ ts) r tenants h =
    from_initial-Refines ts (insert t.id t r) (with_tenant t tenants) (insert-Refines t r tenants h)

lookup-Fresh : (k : Text) (r : Repository) → Fresh k (keys r) → lookup k r ≡ none
lookup-Fresh k [] h = refl
lookup-Fresh k ((j, u) ∷ r) (head, rest) = rw (beq_ne head) (lookup-Fresh k r rest)

Listed-values :
    (r : Repository) (t : Tenant)
    → Unique (keys r)
    → All StoredUnder r
    → Listed t (values r) ↔ (lookup t.id r ≡ some t)
Listed-values [] t once own = ((λ h. elim h [ ]), (λ h. absurd cc))
Listed-values ((k, u) ∷ r) t (head, once) (at, own) =
    stored (k == t.id) refl (Listed-values r t once own)
  where
    stored :
        (b : Bool)
        → (k == t.id) ≡ b
        → Listed t (values r) ↔ (lookup t.id r ≡ some t)
        → ((u ≡ t) ⊎ Listed t (values r)) ↔ ((if b then some u else lookup t.id r) ≡ some t)
    stored true e (to, from) = (
      λ h. elim h [
        | inl same ↦ ap some same
        | inr rest ↦ absurd (
            cc (
              to rest,
              subst (λ j. lookup j r ≡ none) ((list_beq_iff k t.id).0 e) (lookup-Fresh k r head),
            ))
      ],
      λ h. inl cc,
    )
    stored false e (to, from) = (
      λ h. elim h [
        | inl same ↦ absurd (cc (e, (list_beq_iff k t.id).1 (at ∙ ap (λ v. v.id) same)))
        | inr rest ↦ to rest
      ],
      λ h. inr (from h),
    )

-- What a repository answers that holds the tenants of a function.
abbrev pub Answers : Repository → Tenants → Type 0
Answers r tenants =
    ((id : Text) (include_deleted : Bool) (t : Tenant)
      → (find_by_id id include_deleted r ≡ some t)
        ↔ ((tenants id ≡ some t) × IsVisible include_deleted t))
    × ((options : Shown) (t : Tenant)
        → Listed t (all_tenants options r) ↔ (
            (tenants t.id ≡ some t)
            × (IsVisible options.include_deleted t × HasStatus options.statuses t.status)))
    × ((ids : List Text) (include_deleted : Bool) (t : Tenant)
        → Listed t (where_in ids include_deleted r)
          ↔ ((tenants t.id ≡ some t) × (Listed t.id ids × IsVisible include_deleted t)))

filtered :
    (p : Tenant → Bool) (P : Type 0) (r : Repository) (tenants : Tenants) (t : Tenant)
    → Refines r tenants
    → (p t ≡ true) ↔ P
    → Listed t (filter p (values r)) ↔ ((tenants t.id ≡ some t) × P)
filtered p P r tenants t (once, own, found) (there, back) =
    let (to, from) = Listed-filter p t (values r) in
    let (stored, listed) = Listed-values r t once own in
    (
      (λ h. (sym (found t.id) ∙ stored (to h).0, there (to h).1)),
      (λ h. from (listed (found t.id ∙ h.0), back h.1)),
    )

Refines-Answers : (r : Repository) (tenants : Tenants) → Refines r tenants → Answers r tenants
unfolding find_by_id all_tenants where_in
Refines-Answers r tenants h = (
  (λ id include_deleted t.
      subst
        (λ o.
          (unless_deleted include_deleted o ≡ some t)
          ↔ ((tenants id ≡ some t) × IsVisible include_deleted t))
        (sym (h.2 id)) (unless_deleted_iff include_deleted (tenants id) t)),
  (λ options t.
      filtered (is_shown options)
        (IsVisible options.include_deleted t × HasStatus options.statuses t.status) r tenants t h
        (is_shown_iff options t)),
  (λ ids include_deleted t.
      filtered (is_wanted ids include_deleted) (Listed t.id ids × IsVisible include_deleted t) r
        tenants t h (is_wanted_iff ids include_deleted t)),
)

-- The repository implements a function from ids to tenants: after any initial tenants and any
-- commands, with the latest tenant of an id in the place of an earlier one, the lookup by id finds
-- what the function gives, unless it is deleted and deleted tenants are not asked for, and the two
-- listings hold exactly the tenants of the function that are visible and have a status or an id
-- that is asked for.
pub apply_each-Answers :
    (initial : List Tenant) (commands : List Command)
    → Answers
        (apply_each commands (from_initial initial []))
        (meant_each commands (meant_initial initial (λ id. none)))
apply_each-Answers initial commands =
    Refines-Answers (apply_each commands (from_initial initial []))
      (meant_each commands (meant_initial initial (λ id. none)))
      (apply_each-Refines commands (from_initial initial []) (meant_initial initial (λ id. none))
        (from_initial-Refines initial [] (λ id. none) (tt, tt, λ id. refl)))
