-- ===== src/Isolation/Scoping.antt =====
-- src/models/scoping.ts: `withTenantScope`, which scopes a model's queries and rows to the tenant
-- in whose context they run. Lucid's query builder is a parameter, by the conditions of a query; a
-- row is what the code reads of it, its scope column.
pub mod Laws
mod Tests
use adonisjs_lasagna_multite.Prelude.{
  String, ◌≡◌, Bool, true, false, ◌&&◌, not, Option, none, some, List, [], ◌∷◌, any, if◌then◌else◌,
  ◌==◌, string_eq,
}
use adonisjs_lasagna_multite.Prelude.Effects.{Outcome, returned, thrown}

-- What the hooks read of their surroundings: the store of `unscoped`, `tenancy.currentId()`, the
-- mode `rowScopeMode === 'strict'` and the column.
pub record Surroundings : Type 0 where
  pub bypass : Option Bool
  pub current_id : Option String
  pub strict : Bool
  pub column : String

-- A value of the scope column in a model.
pub data Cell : Type 0 where
  undefined null : Cell
  value : String → Cell

pub data ScopeError : Type 0 where
  missing_tenant_scope : String → ScopeError
  refusing_to_update refusing_to_delete : Cell → String → ScopeError

-- Lucid's query builder: `where`, and the conditions of a query that `orWhere` has put between
-- them; a row is selected where one of them holds, and every row where there is none.
pub record QueryOps (Q Row : Type 0) : Type 0 where
  pub where_equal : String → String → Q → Q
  pub disjuncts : Q → List (Row → Bool)
  pub cell : String → Row → Cell

abbrev pub has_value : Cell → String → Bool
has_value undefined s = false
has_value null s = false
has_value (value t) s = t == s

module _ {Row : Type 0} where
  abbrev pub holds_one : List (Row → Bool) → Row → Bool
  holds_one [] r = true
  holds_one (d ∷ ds) r = any (λ e. e r) (d ∷ ds)

  -- A condition that is added by `and` binds to the last one of an `or`.
  abbrev pub narrow_last : (Row → Bool) → List (Row → Bool) → List (Row → Bool)
  narrow_last t [] = t ∷ []
  narrow_last t (d ∷ []) = (λ r. d r && t r) ∷ []
  narrow_last t (d ∷ e ∷ ds) = d ∷ narrow_last t (e ∷ ds)

-- `where` adds its condition by `and`, without parentheses round what is there.
pub record QueryLaws {Q Row : Type 0} (o : QueryOps Q Row) : Type 0 where
  pub disjuncts-where_equal :
      (column v : String) (q : Q)
      → o.disjuncts (o.where_equal column v q)
        ≡ narrow_last (λ r. has_value (o.cell column r) v) (o.disjuncts q)

abbrev is_true : Option Bool → Bool
is_true none = false
is_true (some b) = b

pub is_scope_bypassed : Surroundings → Bool
is_scope_bypassed s = is_true s.bypass

-- an id as a condition: `undefined` and the empty text are falsy
abbrev pub nonempty_id : Option String → Option String
nonempty_id none = none
nonempty_id (some id) = if id == "" then none else some id

abbrev pub or_strict : String → Bool → Option String → Outcome ScopeError (Option String)
or_strict action strict (some id) = returned (some id)
or_strict action strict none =
    if strict then thrown (missing_tenant_scope action) else returned none

pub require_scope : Surroundings → String → Outcome ScopeError (Option String)
unfolding is_scope_bypassed
require_scope s action =
    if is_scope_bypassed s
    then returned none
    else or_strict action s.strict (nonempty_id s.current_id)

-- the body of a hook behind `requireScope`: what it does with an id; with none it does nothing
abbrev pub with_id :
    {A : Type 0}
    → (String → A → Outcome ScopeError A)
    → A
    → Outcome ScopeError (Option String)
    → Outcome ScopeError A
with_id body a (returned none) = returned a
with_id body a (returned (some id)) = body id a
with_id body a (thrown e) = thrown e

module _ {Q Row : Type 0} (o : QueryOps Q Row) (s : Surroundings) where
  abbrev pub narrow : String → Q → Outcome ScopeError Q
  narrow id q = returned (o.where_equal s.column id q)

  -- the hooks before `find` and `fetch`, and the wrapped `query()`, by their action
  pub scope_query : String → Q → Outcome ScopeError Q
  unfolding require_scope
  scope_query action q = with_id narrow q (require_scope s action)

  -- one of the two queries of a pagination; `?.` skips one that is not there
  abbrev pub narrow_some : String → Option Q → Option Q
  narrow_some id none = none
  narrow_some id (some q) = some (o.where_equal s.column id q)

  abbrev pub narrow_both : String → Option Q × Option Q → Outcome ScopeError (Option Q × Option Q)
  narrow_both id (counter, fetcher) = returned (narrow_some id counter, narrow_some id fetcher)

  -- the hook before `paginate`, for a pair of queries
  pub before_paginate : Option Q × Option Q → Outcome ScopeError (Option Q × Option Q)
  unfolding require_scope
  before_paginate queries = with_id narrow_both queries (require_scope s "paginate")

module _ (s : Surroundings) where
  abbrev pub fill : String → Cell → Outcome ScopeError Cell
  fill id undefined = returned (value id)
  fill id null = returned (value id)
  fill id (value v) = returned (value v)

  -- the hook before `create`, on the row's scope column
  pub before_create : Cell → Outcome ScopeError Cell
  unfolding require_scope
  before_create c = with_id fill c (require_scope s "create")

  abbrev pub guard : (Cell → String → ScopeError) → String → Cell → Outcome ScopeError Cell
  guard refusal id undefined = returned undefined
  guard refusal id null = thrown (refusal null id)
  guard refusal id (value v) =
      if not (v == id) then thrown (refusal (value v) id) else returned (value v)

  -- the hook before `update`
  pub before_update : Cell → Outcome ScopeError Cell
  unfolding require_scope
  before_update c = with_id (guard refusing_to_update) c (require_scope s "update")

  -- the hook before `delete`
  pub before_delete : Cell → Outcome ScopeError Cell
  unfolding require_scope
  before_delete c = with_id (guard refusing_to_delete) c (require_scope s "delete")
