-- ===== src/Isolation/Scoping/Laws.antt =====
-- What `withTenantScope` (src/models/scoping.ts) keeps apart.
use adonisjs_lasagna_multite.Prelude.{
  Bool, String, ◌≡◌, ◌≢◌, ap, true, false, Option, none, some, ◌==◌, string_eq, beq_refl, beq_ne,
}
use adonisjs_lasagna_multite.Prelude.Effects.{returned, thrown}
use adonisjs_lasagna_multite.Isolation.Scoping.{
  Surroundings, Cell, undefined, null, value, missing_tenant_scope, refusing_to_update,
  refusing_to_delete, QueryOps, QueryLaws, holds_one, is_scope_bypassed, nonempty_id, require_scope,
  with_id, narrow, scope_query, narrow_both, before_paginate, fill, before_create, guard,
  before_update, before_delete,
}

-- Code that runs in a tenant's context, and not in `unscoped`.
abbrev pub InTenant : Surroundings → String → Type 0
InTenant s id = (is_scope_bypassed s ≡ false) × (s.current_id ≡ some id) × (id ≢ "")

require_scope-InTenant :
    (s : Surroundings) (id action : String)
    → InTenant s id
    → require_scope s action ≡ returned (some id)
unfolding require_scope
require_scope-InTenant s id action (inside, current, solid) =
    let named : (id == "") ≡ false = beq_ne solid in rw (inside, current, named)

require_scope-Strict :
    (s : Surroundings) (action : String)
    → is_scope_bypassed s ≡ false
    → nonempty_id s.current_id ≡ none
    → s.strict ≡ true
    → require_scope s action ≡ thrown (missing_tenant_scope action)
unfolding require_scope
require_scope-Strict s action inside nobody strict = rw (inside, nobody, strict)

module _ {Q Row : Type 0} (o : QueryOps Q Row) (laws : QueryLaws o) where
  -- The rows that a query selects.
  abbrev pub selects : Q → Row → Bool
  selects q r = holds_one (o.disjuncts q) r

-- Outside every tenant's context and outside `unscoped`, and in strict mode, every hook throws the
-- error that names its action: no query and no row passes unscoped.
pub hooks-Strict :
    {Q Row : Type 0} (o : QueryOps Q Row) (s : Surroundings) (action : String) (q : Q)
    (queries : Option Q × Option Q) (c : Cell)
    → is_scope_bypassed s ≡ false
    → nonempty_id s.current_id ≡ none
    → s.strict ≡ true
    → (scope_query o s action q ≡ thrown (missing_tenant_scope action))
      × (before_paginate o s queries ≡ thrown (missing_tenant_scope "paginate"))
      × (before_create s c ≡ thrown (missing_tenant_scope "create"))
      × (before_update s c ≡ thrown (missing_tenant_scope "update"))
      × (before_delete s c ≡ thrown (missing_tenant_scope "delete"))
unfolding scope_query before_paginate before_create before_update before_delete
hooks-Strict o s action q queries c inside nobody strict =
    let refused : (a : String) → require_scope s a ≡ thrown (missing_tenant_scope a) =
      λ a. require_scope-Strict s a inside nobody strict in
    (
      ap (with_id (narrow o s) q) (refused action),
      ap (with_id (narrow_both o s) queries) (refused "paginate"),
      ap (with_id (fill s) c) (refused "create"),
      ap (with_id (guard s refusing_to_update) c) (refused "update"),
      ap (with_id (guard s refusing_to_delete) c) (refused "delete"),
    )

-- In a tenant's context a row that has no tenant yet is created as the tenant's, and can then be
-- updated and deleted there; a row of another tenant can be neither updated nor deleted there,
-- each refusal naming both, but it can be created: `create` leaves its column as it is.
pub hooks-InTenant :
    (s : Surroundings) (id other : String)
    → InTenant s id
    → other ≢ id
    → (before_create s undefined ≡ returned (value id))
      × (before_create s null ≡ returned (value id))
      × (before_update s (value id) ≡ returned (value id))
      × (before_delete s (value id) ≡ returned (value id))
      × (before_update s (value other) ≡ thrown (refusing_to_update (value other) id))
      × (before_delete s (value other) ≡ thrown (refusing_to_delete (value other) id))
      × (before_create s (value other) ≡ returned (value other))
unfolding before_create before_update before_delete
hooks-InTenant s id other inside foreign =
    let own : (a : String) → require_scope s a ≡ returned (some id) =
      λ a. require_scope-InTenant s id a inside in
    let same : (id == id) ≡ true = beq_refl id in
    let differ : (other == id) ≡ false = beq_ne foreign in
    (
      rw (own "create"),
      rw (own "create"),
      rw (own "update", same),
      rw (own "delete", same),
      rw (own "update", differ),
      rw (own "delete", differ),
      rw (own "create"),
    )
