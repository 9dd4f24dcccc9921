-- ===== src/Tenancy/Context.antt =====
-- src/tenancy.ts and src/services/tenant_log_context.ts: `tenancy.run`, `tenancy.currentId` and the
-- store of the active tenant. The async local store is a field of the world that `run` binds for
-- one call and puts back; the container's singletons are the registry that `run` is given.
pub mod Scope
pub mod Tests
use adonisjs_lasagna_multite.Prelude.{
  String, Bool, true, false, Option, none, some, if◌then◌else◌, ◌==◌, string_eq,
}
use adonisjs_lasagna_multite.Prelude.Effects.{Outcome, returned, thrown, Effect, pure}
use adonisjs_lasagna_multite.Tenancy.Bootstrap.{Registry, run_scoped}

-- `store` is the AsyncLocalStorage of the log context, as far as the tenant's id goes; `cached`
-- tells whether the module's `cachedLogCtx` is set.
pub record World (W : Type 0) : Type 0 where
  pub store : Option String
  pub cached : Bool
  pub outer : W

-- The tenant as far as this code reads it.
pub record Tenant : Type 0 where
  pub id : String

module _ {W : Type 0} where
  -- `getLogCtx` fills the cache.
  pub get_log_ctx : World W → World W
  get_log_ctx w = record w { cached = true }

module _ {W E : Type 0} where
  -- `TenantLogContext.run`: the store is bound during the call only.
  unfoldable pub with_store : {T : Type 0} → String → Effect (World W) E T → Effect (World W) E T
  with_store id fn w =
      let (result, w') = fn (record w { store = some id }) in
      (result, record w' { store = w.store })

  pub run :
      {T : Type 0}
      → (String → E → World W → World W)
      → Registry (World W) E Tenant
      → Tenant
      → Effect (World W) E T
      → Effect (World W) E T
  unfolding with_store get_log_ctx
  run log_failure registry tenant fn w =
      with_store tenant.id (run_scoped log_failure registry tenant fn) (get_log_ctx w)

module _ {W : Type 0} where
  -- `TenantLogContext.currentTenantId`
  pub current_tenant_id : World W → Option String
  current_tenant_id w = w.store

  pub current_id : World W → Option String
  unfolding current_tenant_id
  current_id w = if w.cached then current_tenant_id w else none

  -- `tenancy.current`: the repository is asked with `includeDeleted`; an empty id asks nothing.
  pub current :
      {E Model : Type 0}
      → (String → Bool → Effect (World W) E (Option Model))
      → Effect (World W) E (Option Model)
  current find_by_id w = elim (current_id w) [
    | none ↦ (returned none, w)
    | some id ↦ if id == "" then (returned none, w) else find_by_id id true w
  ]
