-- ===== src/Resolving/Universal.antt =====
-- src/middleware/universal_middleware.ts and src/middleware/central_only_middleware.ts: routes with or
-- without a tenant. What the two ask of resolvers, repository, driver and logger are parameters.
pub mod Degrading
mod Tests
use adonisjs_lasagna_multite.Prelude.{
  String, Bool, true, false, ◌||◌, Option, none, some, Text, if◌then◌else◌,
}
use adonisjs_lasagna_multite.Prelude.Effects.{Outcome, returned, thrown, Effect, pure}
use adonisjs_lasagna_multite.Tenancy.Context.{World, with_store}
use adonisjs_lasagna_multite.Isolation.Identifier.{is_uuid_v4}
use adonisjs_lasagna_multite.Resolving.Builtins.{Hit, id, domain}
use adonisjs_lasagna_multite.Resolving.Macro.{RequestWorld}
use adonisjs_lasagna_multite.Resolving.Guard.{TenantView}

-- The world of a request: the store of the tenant's id, the request's memo, and the rest.
abbrev pub Requested : Type 0 → Type 0
Requested W = World (RequestWorld W TenantView)

-- the first argument of `warn`
pub data Degradation : Type 0 where
  resolver_failed repository_lookup_failed driver_connect_failed : Degradation

-- `make_repository` tells whether the container gives a repository; `warn` does not throw, since
-- it swallows the errors of the logger.
pub record Services (V E : Type 0) : Type 0 where
  pub resolve_tenant : Effect V E (Option Hit)
  pub make_repository : Effect V E Bool
  pub find_by_id : Text → Bool → Effect V E (Option TenantView)
  pub find_by_domain : Text → Effect V E (Option TenantView)
  pub connect : TenantView → Effect V E (Unit {0})
  pub warn : Degradation → E → V → V

pub data CentralError (E : Type 0) : Type 0 where
  central_route_violation : CentralError E
  failed : E → CentralError E

module _ {W E : Type 0} (s : Services (Requested W) E) where
  -- `__setMemoizedTenant`
  abbrev pub memoized : TenantView → Requested W → Requested W
  memoized t w = record w { outer = record w.outer { memo = some t } }

  abbrev pub connected :
      TenantView → Outcome E (Unit {0}) × Requested W → Option TenantView × Requested W
  connected t (returned _, w) = (some t, memoized t w)
  connected t (thrown e, w) = (none, s.warn driver_connect_failed e w)

  -- The tests on the tenant that was found, then `connect`.
  abbrev pub connect_ready : TenantView → Requested W → Option TenantView × Requested W
  connect_ready t w =
      if t.is_suspended || t.is_deleted
      then (none, w)
      else if t.is_provisioning || t.is_failed
      then (none, w)
      else connected t (s.connect t w)

  abbrev pub looked_up :
      Outcome E (Option TenantView) × Requested W → Option TenantView × Requested W
  looked_up (returned none, w) = (none, w)
  looked_up (returned (some t), w) = connect_ready t w
  looked_up (thrown e, w) = (none, s.warn repository_lookup_failed e w)

  -- The lookup by what the resolvers found; an id that is no UUID finds nothing.
  abbrev pub look_up : Hit → Effect (Requested W) E (Option TenantView)
  look_up (id i) = if is_uuid_v4 i then s.find_by_id i false else pure none
  look_up (domain d) = s.find_by_domain d

  abbrev pub made_repository : Hit → Outcome E Bool × Requested W → Option TenantView × Requested W
  made_repository hit (returned true, w) = looked_up (look_up hit w)
  made_repository hit (returned false, w) = (none, w)
  made_repository hit (thrown e, w) = (none, w)

  abbrev pub resolved : Outcome E (Option Hit) × Requested W → Option TenantView × Requested W
  resolved (returned none, w) = (none, w)
  resolved (returned (some hit), w) = made_repository hit (s.make_repository w)
  resolved (thrown e, w) = (none, s.warn resolver_failed e w)

  -- `#tryResolve`
  pub try_resolve : Requested W → Option TenantView × Requested W
  try_resolve w = resolved (s.resolve_tenant w)

  abbrev pub run_next :
      {T : Type 0}
      → Effect (Requested W) E T
      → Option TenantView × Requested W
      → Outcome E T × Requested W
  run_next next (none, w) = next w
  run_next next (some t, w) = with_store t.id next w

  -- `UniversalMiddleware.handle`
  pub handle_universal : {T : Type 0} → Effect (Requested W) E T → Effect (Requested W) E T
  unfolding try_resolve
  handle_universal next w = run_next next (try_resolve w)

module _ {V E : Type 0} where
  abbrev pub relay : {T : Type 0} → Outcome E T × V → Outcome (CentralError E) T × V
  relay (returned a, w) = (returned a, w)
  relay (thrown e, w) = (thrown (failed e), w)

  abbrev pub unless_resolved :
      {T : Type 0} → Effect V E T → Outcome E (Option Hit) × V → Outcome (CentralError E) T × V
  unless_resolved next (returned none, w) = relay (next w)
  unless_resolved next (returned (some hit), w) = (thrown central_route_violation, w)
  unless_resolved next (thrown e, w) = (thrown (failed e), w)

  -- `CentralOnlyMiddleware.handle`
  pub handle_central :
      {T : Type 0} → Effect V E (Option Hit) → Effect V E T → Effect V (CentralError E) T
  handle_central resolve_tenant next w = unless_resolved next (resolve_tenant w)
