-- ===== src/Isolation/Scoping/Tests.antt =====
-- `withTenantScope` with queries that are predicates on rows, and witnesses.
use adonisjs_lasagna_multite.Prelude.{
  ◌==◌, string_eq, String, ◌≡◌, ◌≢◌, refl, Bool, true, false, some, none, List, [], ◌∷◌, arith,
}
use adonisjs_lasagna_multite.Prelude.Effects.{returned, thrown}
use adonisjs_lasagna_multite.Isolation.Scoping.{
  Surroundings, Cell, undefined, null, value, QueryOps, has_value, narrow_last, is_scope_bypassed,
  missing_tenant_scope, refusing_to_update, refusing_to_delete, scope_query, before_paginate,
  before_create, before_update, before_delete,
}
use adonisjs_lasagna_multite.Isolation.Scoping.Laws.{InTenant, hooks-Strict, hooks-InTenant}

-- a query by its conditions
abbrev Conditions : Type 0
Conditions = List (Cell → Bool)

abbrev ops : QueryOps Conditions Cell
ops = record {
  where_equal = λ column v q. narrow_last (λ r. has_value r v) q;
  disjuncts = λ q. q;
  cell = λ column r. r;
}

abbrev within : Surroundings
within = record { bypass = none; current_id = some "a"; strict = true; column = "tenant_id" }

abbrev outside : Surroundings
outside = record { bypass = none; current_id = none; strict = true; column = "tenant_id" }

abbrev everything : Conditions
everything = []

-- a `where` that every row meets, and behind it an `orWhere` that none meets
abbrev either : Conditions
either = (λ r. true) ∷ (λ r. false) ∷ []

within-InTenant : InTenant within "a"
unfolding is_scope_bypassed
within-InTenant = (refl, refl, (λ e. cc))

hooks-Strict_example :
    (scope_query ops outside "find" everything ≡ thrown (missing_tenant_scope "find"))
    × (before_paginate ops outside (none, some everything)
        ≡ thrown (missing_tenant_scope "paginate"))
    × (before_create outside undefined ≡ thrown (missing_tenant_scope "create"))
    × (before_update outside undefined ≡ thrown (missing_tenant_scope "update"))
    × (before_delete outside undefined ≡ thrown (missing_tenant_scope "delete"))
unfolding is_scope_bypassed
hooks-Strict_example =
    hooks-Strict ops outside "find" everything (none, some everything) undefined refl refl refl

abbrev other : String
other = "b"

abbrev own : String
own = "a"

foreign : other ≢ own
foreign e =
    let same : (other == own) ≡ true = (string_eq.same_iff other own).1 e in
    absurd (ground (arith, same))

hooks-InTenant_example :
    (before_create within undefined ≡ returned (value "a"))
    × (before_create within null ≡ returned (value "a"))
    × (before_update within (value "a") ≡ returned (value "a"))
    × (before_delete within (value "a") ≡ returned (value "a"))
    × (before_update within (value "b") ≡ thrown (refusing_to_update (value "b") "a"))
    × (before_delete within (value "b") ≡ thrown (refusing_to_delete (value "b") "a"))
    × (before_create within (value "b") ≡ returned (value "b"))
hooks-InTenant_example = hooks-InTenant within "a" "b" within-InTenant foreign
