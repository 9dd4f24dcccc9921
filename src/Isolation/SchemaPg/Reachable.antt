-- ===== src/Isolation/SchemaPg/Reachable.antt =====
-- The states that the operations of `SchemaPgDriver` (src/services/isolation/schema_pg_driver.ts)
-- reach.
use adonisjs_lasagna_multite.Prelude.{
  ℕ, ◌≡◌, refl, Bool, true, false, [], arith, Text, codes, ◌++◌, ◌∷◌, if◌then◌else◌,
}
use adonisjs_lasagna_multite.Prelude.Effects.{Outcome, returned, thrown, Effect, ◌>>◌, pure}
use adonisjs_lasagna_multite.Isolation.Identifier.{schema_name, IdentifierError}
use adonisjs_lasagna_multite.Isolation.SchemaPg.{
  ManagerOps, ManagerLaws, DriverError, Config, Pool, max_tenant_connections, schema_name_of,
  connect, disconnect, raw_query, provision, destroy, reset, or_invalid,
}
use adonisjs_lasagna_multite.Isolation.SchemaPg.Connections.{
  IsTenantName, IsBounded, Preserves, bind-Preserves, connect-Preserves, disconnect-Preserves,
  queried-IsBounded,
}

module _ {M C E : Type 0} (o : ManagerOps M C E) (laws : ManagerLaws o) (config : Config) where
  pub raw_query-Preserves :
      (before schema after : Text)
      → Preserves o laws config (raw_query o config before schema after)
  unfolding raw_query
  raw_query-Preserves before schema after p h =
      queried-IsBounded o laws config p (before ++ (b'"' ∷ schema) ++ (b'"' ∷ after)) h

  or_invalid-same :
      {A : Type 0} (out : Outcome IdentifierError A) (p : Pool M)
      → IsBounded o laws config max_tenant_connections p
      → IsBounded o laws config max_tenant_connections (or_invalid o config out p).1
  or_invalid-same (returned a) p h = h
  or_invalid-same (thrown e) p h = h

  pub schema_name_of-Preserves : (id : Text) → Preserves o laws config (schema_name_of o config id)
  unfolding schema_name_of
  schema_name_of-Preserves id p h = or_invalid-same (schema_name config.tenant_schema_prefix id) p h

  pub pure-Preserves : Preserves o laws config (pure tt)
  pure-Preserves p h = h

  pub then-Preserves :
      {A B : Type 0} (m : Effect (Pool M) (DriverError E) A) (k : Effect (Pool M) (DriverError E) B)
      → Preserves o laws config m
      → Preserves o laws config k
      → Preserves o laws config (m >> k)
  then-Preserves m k hm hk = bind-Preserves o laws config m (λ _. k) hm (λ _. hk)

  abbrev create_if_missing : Text → Effect (Pool M) (DriverError E) (Unit {0})
  create_if_missing schema = raw_query o config (codes "CREATE SCHEMA IF NOT EXISTS ") schema []

  abbrev drop_schema : Text → Effect (Pool M) (DriverError E) (Unit {0})
  drop_schema schema = raw_query o config (codes "DROP SCHEMA IF EXISTS ") schema (codes " CASCADE")

  abbrev create_schema : Text → Effect (Pool M) (DriverError E) (Unit {0})
  create_schema schema = raw_query o config (codes "CREATE SCHEMA ") schema []

  provision-Preserves : (now : ℕ) (id : Text) → Preserves o laws config (provision o config now id)
  unfolding provision
  provision-Preserves now id =
      let create = λ (schema : Text).
        then-Preserves (create_if_missing schema) (connect o config now id)
          (raw_query-Preserves (codes "CREATE SCHEMA IF NOT EXISTS ") schema [])
          (connect-Preserves o laws config now id) in
      bind-Preserves o laws config (schema_name_of o config id)
        (λ schema. create_if_missing schema >> connect o config now id >> pure tt)
        (schema_name_of-Preserves id)
        (λ schema.
          then-Preserves (create_if_missing schema >> connect o config now id) (pure tt)
            (create schema) pure-Preserves)

  unless_kept-Preserves :
      (keep_data : Bool) (schema : Text)
      → Preserves o laws config (if keep_data then pure tt else drop_schema schema)
  unless_kept-Preserves true schema = pure-Preserves
  unless_kept-Preserves false schema =
      raw_query-Preserves (codes "DROP SCHEMA IF EXISTS ") schema (codes " CASCADE")

  destroy-Preserves :
      (id : Text) (keep_data : Bool) → Preserves o laws config (destroy o config id keep_data)
  unfolding destroy
  destroy-Preserves id keep_data =
      bind-Preserves o laws config (schema_name_of o config id)
        (λ schema. disconnect o config id >> (if keep_data then pure tt else drop_schema schema))
        (schema_name_of-Preserves id)
        (λ schema.
          then-Preserves (disconnect o config id)
            (if keep_data then pure tt else drop_schema schema)
            (disconnect-Preserves o laws config id) (unless_kept-Preserves keep_data schema))

  emptied-Preserves :
      (id schema : Text)
      → Preserves o laws config
          (disconnect o config id >> drop_schema schema >> create_schema schema)
  emptied-Preserves id schema =
      then-Preserves (disconnect o config id >> drop_schema schema) (create_schema schema)
        (then-Preserves (disconnect o config id) (drop_schema schema)
          (disconnect-Preserves o laws config id)
          (raw_query-Preserves (codes "DROP SCHEMA IF EXISTS ") schema (codes " CASCADE")))
        (raw_query-Preserves (codes "CREATE SCHEMA ") schema [])

  reset-Preserves : (now : ℕ) (id : Text) → Preserves o laws config (reset o config now id)
  unfolding reset
  reset-Preserves now id =
      let emptied =
        λ (schema : Text). disconnect o config id >> drop_schema schema >> create_schema schema in
      bind-Preserves o laws config (schema_name_of o config id)
        (λ schema. emptied schema >> connect o config now id >> pure tt)
        (schema_name_of-Preserves id)
        (λ schema.
          then-Preserves (emptied schema >> connect o config now id) (pure tt)
            (then-Preserves (emptied schema) (connect o config now id) (emptied-Preserves id schema)
              (connect-Preserves o laws config now id))
            pure-Preserves)

  -- What the operations reach, whether they return or throw, from a manager that has no
  -- connection of a tenant yet.
  pub data Reached : Pool M → Type 0 where
    fresh :
        (m : M)
        → ((j : Text) → IsTenantName o laws config j → o.has j m ≡ false)
        → Reached (record { lru = []; manager = m; let_go = []; revived = 0 })
    connected :
        (now : ℕ) (id : Text) (p : Pool M) → Reached p → Reached (connect o config now id p).1
    disconnected : (id : Text) (p : Pool M) → Reached p → Reached (disconnect o config id p).1
    provisioned :
        (now : ℕ) (id : Text) (p : Pool M) → Reached p → Reached (provision o config now id p).1
    destroyed :
        (id : Text) (keep_data : Bool) (p : Pool M)
        → Reached p
        → Reached (destroy o config id keep_data p).1
    was_reset : (now : ℕ) (id : Text) (p : Pool M) → Reached p → Reached (reset o config now id p).1

  -- After any sequence of connect, disconnect, provision, destroy and reset, also of calls that
  -- throw, from a manager without connections of tenants: every connection of a tenant that is open
  -- in the manager is listed by the driver, or was let go, that is evicted without awaiting its
  -- release, or released with an error. The driver lists no name twice and none that is empty, and
  -- at most 50, and as many more as `connect` found known in the manager but not listed, when a
  -- connection that was let go was still there.
  pub Reached-IsBounded :
      (p : Pool M) → Reached p → IsBounded o laws config max_tenant_connections p
  Reached-IsBounded p (fresh m none_open) =
      (omega arith, tt, refl, (λ j tenant known. cc (known, none_open j tenant)))
  Reached-IsBounded p (connected now id q r) =
      connect-Preserves o laws config now id q (Reached-IsBounded q r)
  Reached-IsBounded p (disconnected id q r) =
      disconnect-Preserves o laws config id q (Reached-IsBounded q r)
  Reached-IsBounded p (provisioned now id q r) =
      provision-Preserves now id q (Reached-IsBounded q r)
  Reached-IsBounded p (destroyed id keep_data q r) =
      destroy-Preserves id keep_data q (Reached-IsBounded q r)
  Reached-IsBounded p (was_reset now id q r) = reset-Preserves now id q (Reached-IsBounded q r)
