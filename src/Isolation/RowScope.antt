-- ===== src/Isolation/RowScope.antt =====
-- src/services/isolation/rowscope_pg_driver.ts: shared tables in which a column names the tenant of a
-- row. The deletion of the rows of a table by that column is a parameter.
pub mod Deletion
mod Tests
use adonisjs_lasagna_multite.Prelude.{
  ℕ, Bool, true, false, not, Option, none, some, List, [], ◌∷◌, filter, if◌then◌else◌, or_default,
  ◌==◌, list_eq, ◌≡◌, Text, codes, split,
}
use adonisjs_lasagna_multite.Prelude.Effects.{Outcome, returned, thrown, Effect, pure, ◌>>◌}
use adonisjs_lasagna_multite.Isolation.Identifier.{IdentifierError, assert_safe_identifier}

-- the options of the constructor
pub record Options : Type 0 where
  pub central_connection_name : Option Text
  pub scoped_tables : Option (List Text)
  pub scope_column : Option Text

pub record Driver : Type 0 where
  pub central_connection_name : Text
  pub scoped_tables : List Text
  pub scope_column : Text

-- `client.from(table).where(column, id).delete()`, and what the database holds: the rows of a table,
-- and the value of a column in a row.
pub record TableOps (D R E : Type 0) : Type 0 where
  pub rows : Text → D → List R
  pub value : Text → R → Option Text
  pub delete_where : Text → Text → Text → Effect D E (Unit {0})

abbrev pub holds : Option Text → Text → Bool
holds none id = false
holds (some v) id = v == id

-- A deletion that returns has taken the rows with the value from the table, and touched no other
-- table; one that throws has done nothing.
pub record TableLaws {D R E : Type 0} (o : TableOps D R E) : Type 0 where
  pub rows-delete_where :
      (table column id : Text) (d d' : D)
      → o.delete_where table column id d ≡ (returned tt, d')
      → (t : Text)
      → o.rows t d' ≡ (
          if table == t
          then filter (λ r. not (holds (o.value column r) id)) (o.rows t d)
          else o.rows t d)
  pub failed_delete :
      (table column id : Text) (d d' : D) (e : E)
      → o.delete_where table column id d ≡ (thrown e, d')
      → (t : Text) → o.rows t d' ≡ o.rows t d

pub data RowScopeError (E : Type 0) : Type 0 where
  invalid_id : IdentifierError → RowScopeError E
  query_failed : E → RowScopeError E

abbrev pub and_then :
    Outcome IdentifierError (Unit {0})
    → Outcome IdentifierError (Unit {0})
    → Outcome IdentifierError (Unit {0})
and_then (returned _) next = next
and_then (thrown e) next = thrown e

abbrev pub assert_parts : List Text → Outcome IdentifierError (Unit {0})
assert_parts [] = returned tt
assert_parts (part ∷ parts) = and_then (assert_safe_identifier part) (assert_parts parts)

abbrev pub assert_tables : List Text → Outcome IdentifierError (Unit {0})
assert_tables [] = returned tt
assert_tables (table ∷ tables) = and_then (assert_parts (split b'.' table)) (assert_tables tables)

abbrev made : Driver → Outcome IdentifierError (Unit {0}) → Outcome IdentifierError Driver
made driver (returned _) = returned driver
made driver (thrown e) = thrown e

-- the constructor
pub new_driver : Options → Outcome IdentifierError Driver
new_driver opts =
    let driver : Driver = record {
      central_connection_name = or_default opts.central_connection_name (codes "tenant");
      scoped_tables = or_default opts.scoped_tables [];
      scope_column = or_default opts.scope_column (codes "tenant_id");
    } in
    made driver
      (and_then (assert_tables driver.scoped_tables) (assert_safe_identifier driver.scope_column))

-- `connectionName`
pub connection_name : Driver → Text → Text
connection_name driver id = driver.central_connection_name

module _ {D R E : Type 0} (o : TableOps D R E) (driver : Driver) where
  abbrev pub relay : Outcome E (Unit {0}) × D → Outcome (RowScopeError E) (Unit {0}) × D
  relay (returned _, d) = (returned tt, d)
  relay (thrown e, d) = (thrown (query_failed e), d)

  -- `provision`
  pub provision : Text → Effect D (RowScopeError E) (Unit {0})
  provision id = pure tt

  -- the loop of `destroy`
  abbrev pub delete_from : List Text → Text → Effect D (RowScopeError E) (Unit {0})
  delete_from [] id = pure tt
  delete_from (table ∷ tables) id =
      (λ d. relay (o.delete_where table driver.scope_column id d)) >> delete_from tables id

  abbrev pub destroy_checked :
      Text → Outcome IdentifierError (Unit {0}) → Effect D (RowScopeError E) (Unit {0})
  destroy_checked id (returned _) d = delete_from driver.scoped_tables id d
  destroy_checked id (thrown e) d = (thrown (invalid_id e), d)

  abbrev pub destroy_in : List Text → Text → Effect D (RowScopeError E) (Unit {0})
  destroy_in [] id = pure tt
  destroy_in (table ∷ tables) id = destroy_checked id (assert_safe_identifier id)

  -- `destroy`
  pub destroy : Text → Bool → Effect D (RowScopeError E) (Unit {0})
  destroy id keep_data = if keep_data then pure tt else destroy_in driver.scoped_tables id

  -- `reset`
  pub reset : Text → Effect D (RowScopeError E) (Unit {0})
  unfolding destroy
  reset id = destroy id false

  -- `disconnect`
  pub disconnect : Text → Effect D (RowScopeError E) (Unit {0})
  disconnect id = pure tt

-- what `migrate` gives
pub record MigrateResult : Type 0 where
  pub executed : ℕ
  pub noop : Bool

pub migrate : Text → MigrateResult
migrate id = record { executed = 0; noop = true }
