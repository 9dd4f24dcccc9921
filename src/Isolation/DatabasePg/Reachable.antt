-- ===== src/Isolation/DatabasePg/Reachable.antt =====
-- The states that the operations of `DatabasePgDriver` (src/services/isolation/database_pg_driver.ts)
-- reach.
use adonisjs_lasagna_multite.Prelude.{
  ℕ, ◌≡◌, refl, Bool, true, false, [], arith, Text, codes, if◌then◌else◌,
}
use adonisjs_lasagna_multite.Prelude.Effects.{Outcome, returned, thrown, Effect, ◌>>=◌, ◌>>◌, pure}
use adonisjs_lasagna_multite.Isolation.SchemaPg.{
  ManagerOps, ManagerLaws, DriverError, Config, Pool, max_tenant_connections, connect, disconnect,
  raw_query,
}
use adonisjs_lasagna_multite.Isolation.SchemaPg.Connections.{
  IsTenantName, IsBounded, Preserves, bind-Preserves, connect-Preserves, disconnect-Preserves,
  queried-IsBounded,
}
use adonisjs_lasagna_multite.Isolation.SchemaPg.Reachable.{
  raw_query-Preserves, schema_name_of-Preserves, pure-Preserves, then-Preserves,
}
use adonisjs_lasagna_multite.Isolation.DatabasePg.{
  Catalog, CatalogLaws, database_name, looked_up, find_database, create_unless, provision,
  terminate_query, terminate, destroy, reset,
}

module _ {M C E : Type 0} (o : ManagerOps M C E) (laws : ManagerLaws o) (catalog : Catalog M E)
    (catalog_laws : CatalogLaws o catalog) (config : Config) where
  looked_up-IsBounded :
      (p : Pool M) (r : Outcome E Bool × M)
      → IsBounded o laws config max_tenant_connections p
      → ((j : Text) → o.has j r.1 ≡ true → o.has j p.manager ≡ true)
      → IsBounded o laws config max_tenant_connections (looked_up o catalog config p r).1
  looked_up-IsBounded p (returned b, m) h same =
      (h.0, h.1, h.2, (λ j tenant known. h.3 j tenant (same j known)))
  looked_up-IsBounded p (thrown e, m) h same =
      (h.0, h.1, h.2, (λ j tenant known. h.3 j tenant (same j known)))

  database_name-Preserves :
      (id : Text) → Preserves o laws config (database_name o catalog config id)
  unfolding database_name
  database_name-Preserves id = schema_name_of-Preserves o laws config id

  find_database-Preserves :
      (name : Text) → Preserves o laws config (find_database o catalog config name)
  find_database-Preserves name p h =
      looked_up-IsBounded p (catalog.exists name p.manager) h
        (λ j. catalog_laws.has-exists j name p.manager)

  create_unless-Preserves :
      (name : Text) (b : Bool) → Preserves o laws config (create_unless o catalog config name b)
  create_unless-Preserves name true = pure-Preserves o laws config
  create_unless-Preserves name false =
      raw_query-Preserves o laws config (codes "CREATE DATABASE ") name []

  terminate-Preserves : (name : Text) → Preserves o laws config (terminate o catalog config name)
  terminate-Preserves name p h = queried-IsBounded o laws config p (terminate_query name) h

  provision-Preserves :
      (now : ℕ) (id : Text) → Preserves o laws config (provision o catalog config now id)
  unfolding provision
  provision-Preserves now id =
      let created = λ (name : Text).
        find_database o catalog config name >>= create_unless o catalog config name in
      let connected = λ (name : Text). created name >> connect o config now id in
      bind-Preserves o laws config (database_name o catalog config id)
        (λ name. connected name >> pure tt) (database_name-Preserves id)
        (λ name.
          then-Preserves o laws config (connected name) (pure tt)
            (then-Preserves o laws config (created name) (connect o config now id)
              (bind-Preserves o laws config (find_database o catalog config name)
                (create_unless o catalog config name) (find_database-Preserves name)
                (create_unless-Preserves name))
              (connect-Preserves o laws config now id))
            (pure-Preserves o laws config))

  abbrev drop_database : Text → Effect (Pool M) (DriverError E) (Unit {0})
  drop_database name =
      terminate o catalog config name
      >> raw_query o config (codes "DROP DATABASE IF EXISTS ") name []

  unless_kept-Preserves :
      (keep_data : Bool) (name : Text)
      → Preserves o laws config (if keep_data then pure tt else drop_database name)
  unless_kept-Preserves true name = pure-Preserves o laws config
  unless_kept-Preserves false name =
      then-Preserves o laws config (terminate o catalog config name)
        (raw_query o config (codes "DROP DATABASE IF EXISTS ") name []) (terminate-Preserves name)
        (raw_query-Preserves o laws config (codes "DROP DATABASE IF EXISTS ") name [])

  destroy-Preserves :
      (id : Text) (keep_data : Bool)
      → Preserves o laws config (destroy o catalog config id keep_data)
  unfolding destroy
  destroy-Preserves id keep_data =
      bind-Preserves o laws config (database_name o catalog config id)
        (λ name. disconnect o config id >> (if keep_data then pure tt else drop_database name))
        (database_name-Preserves id)
        (λ name.
          then-Preserves o laws config (disconnect o config id)
            (if keep_data then pure tt else drop_database name)
            (disconnect-Preserves o laws config id) (unless_kept-Preserves keep_data name))

  reset-Preserves : (now : ℕ) (id : Text) → Preserves o laws config (reset o catalog config now id)
  unfolding reset
  reset-Preserves now id =
      then-Preserves o laws config (destroy o catalog config id false)
        (provision o catalog config now id) (destroy-Preserves id false)
        (provision-Preserves now id)

  -- What the operations reach from a manager that has no connection of a tenant yet.
  pub data Reached : Pool M → Type 0 where
    fresh :
        (m : M)
        → ((j : Text) → IsTenantName o laws config j → o.has j m ≡ false)
        → Reached (record { lru = []; manager = m; let_go = []; revived = 0 })
    connected :
        (now : ℕ) (id : Text) (p : Pool M) → Reached p → Reached (connect o config now id p).1
    disconnected : (id : Text) (p : Pool M) → Reached p → Reached (disconnect o config id p).1
    provisioned :
        (now : ℕ) (id : Text) (p : Pool M)
        → Reached p
        → Reached (provision o catalog config now id p).1
    destroyed :
        (id : Text) (keep_data : Bool) (p : Pool M)
        → Reached p
        → Reached (destroy o catalog config id keep_data p).1
    was_reset :
        (now : ℕ) (id : Text) (p : Pool M) → Reached p → Reached (reset o catalog config now id p).1

  -- After any sequence of operations of the database driver, also of calls that throw, from a
  -- manager without connections of tenants: every connection of a tenant that is open is listed, or
  -- was evicted without awaiting its release, or released with an error; no name is listed twice,
  -- none is empty, and there are at most 50, and as many more as `connect` found known but not listed.
  pub Reached-pool : (p : Pool M) → Reached p → IsBounded o laws config max_tenant_connections p
  Reached-pool p (fresh m none_open) =
      (omega arith, tt, refl, (λ j tenant known. cc (known, none_open j tenant)))
  Reached-pool p (connected now id q r) =
      connect-Preserves o laws config now id q (Reached-pool q r)
  Reached-pool p (disconnected id q r) = disconnect-Preserves o laws config id q (Reached-pool q r)
  Reached-pool p (provisioned now id q r) = provision-Preserves now id q (Reached-pool q r)
  Reached-pool p (destroyed id keep_data q r) = destroy-Preserves id keep_data q (Reached-pool q r)
  Reached-pool p (was_reset now id q r) = reset-Preserves now id q (Reached-pool q r)
