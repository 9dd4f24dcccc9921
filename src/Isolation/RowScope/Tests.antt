-- ===== src/Isolation/RowScope/Tests.antt =====
-- The row scoping driver on a database of functions, and a witness.
use adonisjs_lasagna_multite.Prelude.{
  ◌≡◌, refl, sym, ap, true, false, not, none, some, List, [], ◌∷◌, filter, if◌then◌else◌, ◌==◌,
  list_eq, Text, codes,
}
use adonisjs_lasagna_multite.Prelude.Effects.{Outcome, returned, thrown}
use adonisjs_lasagna_multite.Isolation.Identifier.{unsafe_identifier, assert_safe_identifier}
use adonisjs_lasagna_multite.Isolation.RowScope.{
  Options, Driver, TableOps, TableLaws, holds, new_driver, destroy, reset,
}
use adonisjs_lasagna_multite.Isolation.RowScope.Deletion.{Deleted, destroy-Deleted}

-- a row is the id of its tenant
abbrev Database : Type 0
Database = Text → List Text

abbrev ops : TableOps Database Text (Unit {0})
ops = record {
  rows = λ t d. d t;
  value = λ column r. some r;
  delete_where = λ table column id d.
      (returned tt, λ t. if table == t then filter (λ r. not (holds (some r) id)) (d t) else d t);
}

laws : TableLaws ops
laws = record {
  rows-delete_where = λ table column id d d' e t.
      ap (λ (x : Outcome (Unit {0}) (Unit {0}) × Database). x.1 t) (sym e);
  failed_delete = λ table column id d d' x e t. absurd cc;
}

abbrev options : Options
options = record {
  central_connection_name = none;
  scoped_tables = some (codes "public.posts" ∷ codes "tags" ∷ []);
  scope_column = none;
}

abbrev driver : Driver
driver = record {
  central_connection_name = codes "tenant";
  scoped_tables = codes "public.posts" ∷ codes "tags" ∷ [];
  scope_column = codes "tenant_id";
}

abbrev database : Database
database t = codes "a" ∷ codes "b" ∷ codes "a" ∷ []

rowscope_tests :
    ((destroy ops driver (codes "a") false database).1 (codes "tags") ≡ codes "b" ∷ [])
    × ((reset ops driver (codes "a") database).1 (codes "logs") ≡ database (codes "logs"))
    × (new_driver options ≡ returned driver)
    × (new_driver (record options { scope_column = some (codes "tenant id") })
        ≡ thrown (unsafe_identifier (codes "tenant id")))
unfolding destroy reset new_driver assert_safe_identifier
rowscope_tests = (refl, refl, refl, refl)

destroy-Deleted_example :
    Deleted ops laws driver
      (codes "a")
      driver.scoped_tables
      database
      (destroy ops driver (codes "a") false database)
    × (destroy ops driver (codes "a") true database ≡ (returned tt, database))
destroy-Deleted_example = destroy-Deleted ops laws driver (codes "a") database
