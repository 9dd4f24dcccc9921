-- ===== src/Isolation/DatabasePg.antt =====
-- src/services/isolation/database_pg_driver.ts: a PostgreSQL database for each tenant. Its connections
-- are those of Isolation/SchemaPg, whose text the driver repeats (connectionName, connect, disconnect,
-- touch and evictIfNeeded): the manager is asked with the name of a database in the place of that of
-- a schema. A query that looks a database up is a parameter.
pub mod Reachable
mod Tests
use adonisjs_lasagna_multite.Prelude.{
  ℕ, Bool, true, false, Option, none, some, List, [], ◌∷◌, ◌++◌, if◌then◌else◌, or_default, ◌≡◌,
  Text, codes,
}
use adonisjs_lasagna_multite.Prelude.Effects.{Outcome, returned, thrown, Effect, ◌>>=◌, ◌>>◌, pure}
use adonisjs_lasagna_multite.Isolation.SchemaPg.{
  ManagerOps, DriverError, query_failed, Config, Pool, schema_name_of, connect, disconnect,
  raw_query, queried,
}

-- the options of the constructor
pub record Options : Type 0 where
  pub template_connection_name : Option Text
  pub database_prefix : Option Text

-- What the driver reads of its options and of the configuration.
abbrev pub config_of : Options → Config → Config
config_of opts config = record config {
  template_connection_name = or_default opts.template_connection_name (codes "tenant");
  tenant_schema_prefix = or_default opts.database_prefix config.tenant_schema_prefix;
}

-- The lookup in `pg_database`: whether a database of that name is there.
pub record Catalog (M E : Type 0) : Type 0 where
  pub exists : Text → M → Outcome E Bool × M

pub record CatalogLaws {M C E : Type 0} (o : ManagerOps M C E) (catalog : Catalog M E)
    : Type 0 where
  pub has-exists :
      (j name : Text) (m : M) → o.has j (catalog.exists name m).1 ≡ true → o.has j m ≡ true

-- the query that ends the sessions of a database but its own; the name that is bound to its `?` is
-- written in quotes in its place
abbrev pub terminate_query : Text → Text
terminate_query name =
    codes "SELECT pg_terminate_backend(pid) FROM pg_stat_activity WHERE datname = '"
    ++ (name ++ codes "' AND pid <> pg_backend_pid()")

module _ {M C E : Type 0} (o : ManagerOps M C E) (catalog : Catalog M E) (config : Config) where
  abbrev Run : Type 0 → Type 0
  Run A = Effect (Pool M) (DriverError E) A

  -- `databaseName`
  pub database_name : Text → Run Text
  database_name id = schema_name_of o config id

  abbrev pub looked_up : Pool M → Outcome E Bool × M → Outcome (DriverError E) Bool × Pool M
  looked_up p (returned b, m) = (returned b, record p { manager = m })
  looked_up p (thrown e, m) = (thrown (query_failed e), record p { manager = m })

  abbrev pub find_database : Text → Run Bool
  find_database name p = looked_up p (catalog.exists name p.manager)

  abbrev pub create_unless : Text → Bool → Run (Unit {0})
  create_unless name true = pure tt
  create_unless name false = raw_query o config (codes "CREATE DATABASE ") name []

  -- `provision`
  pub provision : ℕ → Text → Run (Unit {0})
  unfolding database_name
  provision now id = database_name id >>= λ name.
      (find_database name >>= create_unless name) >> connect o config now id >> pure tt

  abbrev pub terminate : Text → Run (Unit {0})
  terminate name p = queried o config p (o.query (terminate_query name) p.manager)

  -- `destroy`
  pub destroy : Text → Bool → Run (Unit {0})
  unfolding database_name
  destroy id keep_data = database_name id >>= λ name.
      disconnect o config id
      >> (if keep_data
          then pure tt
          else terminate name >> raw_query o config (codes "DROP DATABASE IF EXISTS ") name [])

  -- `reset`
  pub reset : ℕ → Text → Run (Unit {0})
  unfolding provision destroy
  reset now id = destroy id false >> provision now id
