-- ===== src/Lib.antt =====
-- Multitenancy for AdonisJS (@adonisjs-lasagna/multitenancy): a package that finds the tenant of a
-- request, runs the request in the tenant's context and keeps the tenants' data apart. This library
-- models its core, one module for each service, and states what each one promises. All source
-- paths are relative to the repository's root.
--
-- How the parts work together. A request meets TenantGuardMiddleware (Resolving/Guard), which asks
-- request.tenant() (Resolving/Macro). That macro walks the chain of resolvers (Resolving/Registry,
-- with the five strategies of Resolving/Builtins), looks the tenant up, connects the active
-- isolation driver and memoizes the tenant. tenancy.run (Tenancy/Context) binds the tenant's id in
-- the store and brackets the call by the bootstrappers (Tenancy/Bootstrap). Isolation drivers are
-- registered and chosen in Isolation/Registry; the default one, a PostgreSQL schema for each
-- tenant, is Isolation/SchemaPg, which takes ids through the policy of Isolation/Identifier. With
-- shared tables, models are scoped to the tenant in the store (Isolation/Scoping). The jobs
-- that install, uninstall, back up, restore and clone tenants (Lifecycle/Jobs) run the hooks of
-- Lifecycle/Hooks on the tenants of a repository (Lifecycle/Repository). Routes that serve both a
-- tenant and none go through Resolving/Universal. What a
-- tenant uses is counted against its plan (Usage/Quota). Dumps
-- are taken apart by the splitters of Sql/Splitter and Sql/Tagged before they are imported. An admin
-- acts as a user of a tenant under a token of Access/Impersonation, and Access/Redirects builds the
-- URLs between the hosts of tenants, which the resolvers of Resolving/Builtins read again.
--
-- Which file models which part:
--   Tenancy/Bootstrap    src/services/bootstrapper_registry.ts: register, unregister, runEnter,
--                        runLeave, runScoped
--   Tenancy/Context      src/tenancy.ts: run, currentId, current; src/services/tenant_log_context.ts
--   Lifecycle/Hooks      src/services/hook_registry.ts: before, after, loadDeclarative, run
--   Lifecycle/Repository src/testing/mock_repository.ts, src/testing/builders.ts: all operations
--   Lifecycle/Jobs       src/jobs: execute of the five jobs; src/services/clone_service.ts: clone
--   Lifecycle/Retention  src/services/backup_retention_service.ts: all operations
--   Lifecycle/Admin      src/admin/admin_controller.ts: list, show, create, activate, suspend,
--                        destroy, restore
--   Lifecycle/Purge      src/utils/soft_delete.ts, src/commands/tenant_purge_expired.ts: run
--   Isolation/Identifier src/services/isolation/identifier.ts: isUuidV4, assertSafeIdentifier
--   Isolation/Registry   src/services/isolation/registry.ts: register, use, active
--   Isolation/SchemaPg   src/services/isolation/schema_pg_driver.ts: connect, disconnect, eviction,
--                        provision, destroy, reset
--   Isolation/DatabasePg src/services/isolation/database_pg_driver.ts: provision, destroy, reset
--   Isolation/RowScope   src/services/isolation/rowscope_pg_driver.ts: all operations
--   Isolation/Scoping    src/models/scoping.ts: withTenantScope's hooks
--   Resolving/Builtins   src/services/resolvers/builtins.ts: the five resolvers
--   Resolving/Registry   src/services/resolvers/registry.ts: setChain, resolve
--   Resolving/Macro      src/extensions/request.ts: the macro tenant
--   Resolving/Legacy     src/extensions/request.ts: resolveTenant, legacyResolveTenantId
--   Resolving/Guard      src/middleware/tenant_guard_middleware.ts: handle
--   Resolving/Universal  src/middleware/universal_middleware.ts, central_only_middleware.ts: handle
--   Usage/Quota          src/services/quota_service.ts: getPlanFor, getLimit, getUsage, track, check,
--                        consume
--   Usage/Replica        src/services/read_replica_service.ts: pickIndex, pickHost
--   Sql/Splitter         src/utils/sql_splitter.ts: splitSqlStatements
--   Sql/Tagged           src/utils/sql_splitter.ts: splitSqlStatementsTagged
--   Access/Impersonation src/services/impersonation_service.ts: start, stop, revokeById, verify
--   Access/Redirects     src/services/cross_domain_redirect_service.ts: all operations
--   Satellites/Webhooks  src/services/webhook_service.ts: send and its retries
--   Prelude              shared: texts, ordered maps, outcomes of awaited calls
--
-- How the code is read. An awaited call is a function of a world that returns or throws
-- (Prelude/Effects); the world, the callbacks (bootstrappers, hooks, resolvers, the rest of a
-- request) and the thrown values are parameters, so that a theorem holds for all of them. Callbacks
-- do not change the registry that calls them. A Map is a list of entries in insertion order
-- (Prelude/Maps). Texts that the code takes apart are lists of UTF-16 code units. Lucid's
-- connection manager and query builder and the Redis client are records of operations, with records
-- of laws that say what their documentation says: only add makes a connection known, and an awaited
-- release that returns has made it unknown, where one that is not awaited may end at any later call
-- or fail; where adds its condition by `and` to the last alternative of a query; and a write is seen
-- under its own key. Two interleaved requests are not modelled, except that the store is bound for
-- one call.
--
-- Bounds and fuel. The schema driver's bound is its constant 50; two fields of its pool are history
-- that no operation reads, the names let go and the count of those that were revived. The scan of splitSqlStatements
-- runs on fuel, one round more than the text has code units, which is enough since each round moves
-- on by one at least; the termination results say so. All other loops recurse on their lists.
--
-- Not modelled: what only hands over to PostgreSQL, Redis, S3, mail or the queue (backups, the copying
-- of a clone's data, imports, metrics), the rest of the admin API, most commands, the health checks, the
-- provider that wires the container, and messages of errors beyond the values that they carry.
pub mod Prelude
pub mod Isolation
pub mod Tenancy
pub mod Lifecycle
pub mod Resolving
pub mod Sql
pub mod Usage
pub mod Access
pub mod Satellites
