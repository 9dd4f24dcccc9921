-- ===== src/Resolving/Macro.antt =====
-- src/extensions/request.ts: `request.tenant()`, with its memo on the request. The repository and
-- the active driver are parameters, as is the resolution that `resolveTenant` makes.
pub mod Memo
mod Tests
use adonisjs_lasagna_multite.Prelude.{Bool, true, false, Option, none, some, Text, if◌then◌else◌}
use adonisjs_lasagna_multite.Prelude.Effects.{Outcome, returned, thrown, Effect, ◌>>=◌, throw, pure}
use adonisjs_lasagna_multite.Isolation.Identifier.{is_uuid_v4}
use adonisjs_lasagna_multite.Resolving.Builtins.{Hit, id, domain}

-- What the macro calls: `resolveTenant`, the repository's two searches (the first one is asked for
-- deleted tenants too), and `connect` of the active driver.
pub record Services (W E T : Type 0) : Type 0 where
  pub resolve_tenant : Effect W E (Option Hit)
  pub find_by_id : Text → Bool → Effect W E (Option T)
  pub find_by_domain : Text → Effect W E (Option T)
  pub connect : T → Effect W E (Unit {0})

pub data TenantError (E : Type 0) : Type 0 where
  missing_tenant_header tenant_not_found : TenantError E
  failed : E → TenantError E

-- The request's memo, and the world.
pub record RequestWorld (W T : Type 0) : Type 0 where
  pub memo : Option T
  pub outer : W

module _ {W E T : Type 0} where
  abbrev pub relay :
      {A : Type 0}
      → RequestWorld W T
      → Outcome E A × W
      → Outcome (TenantError E) A × RequestWorld W T
  relay w (returned a, outer) = (returned a, record w { outer = outer })
  relay w (thrown e, outer) = (thrown (failed e), record w { outer = outer })

  -- a call that does not reach the memo
  abbrev pub outside : {A : Type 0} → Effect W E A → Effect (RequestWorld W T) (TenantError E) A
  outside call w = relay w (call w.outer)

  -- `assert(UUID_V4.test(id))` before the search by id; no hit is an error
  pub find_tenant :
      Services W E T → Option Hit → Effect (RequestWorld W T) (TenantError E) (Option T)
  find_tenant s none = throw missing_tenant_header
  find_tenant s (some (id i)) =
      if is_uuid_v4 i then outside (s.find_by_id i true) else throw missing_tenant_header
  find_tenant s (some (domain d)) = outside (s.find_by_domain d)

  abbrev pub memoize : T → Effect (RequestWorld W T) (TenantError E) T
  memoize t w = (returned t, record w { memo = some t })

  pub connect_found : Services W E T → Option T → Effect (RequestWorld W T) (TenantError E) T
  connect_found s none = throw tenant_not_found
  connect_found s (some t) = outside (s.connect t) >>= λ _. memoize t

  abbrev pub tenant_or : Services W E T → Option T → Effect (RequestWorld W T) (TenantError E) T
  tenant_or s (some t) = pure t
  tenant_or s none = outside s.resolve_tenant >>= λ hit. find_tenant s hit >>= connect_found s

  -- the macro `tenant`
  unfoldable pub tenant : Services W E T → Effect (RequestWorld W T) (TenantError E) T
  unfolding find_tenant connect_found
  tenant s w = tenant_or s w.memo w
