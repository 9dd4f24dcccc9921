-- ===== src/Resolving/Guard.antt =====
-- src/middleware/tenant_guard_middleware.ts: `TenantGuardMiddleware.handle`. A tenant is what the
-- guard reads of it; the circuit breaker and the rest of the request are parameters.
pub mod Admission
mod Tests
use adonisjs_lasagna_multite.Prelude.{
  ℕ, String, Bool, true, false, ◌&&◌, ◌||◌, not, Option, none, some, List, [], ◌∷◌, ◌++◌, any,
  if◌then◌else◌, or_default, ◌==◌, list_eq, string_eq, Text, split, first, starts_with, codes,
}
use adonisjs_lasagna_multite.Prelude.Effects.{Outcome, returned, thrown, Effect, ◌>>=◌, throw, pure}
use adonisjs_lasagna_multite.Tenancy.Context.{World, with_store}

pub record TenantView : Type 0 where
  pub id : String
  pub is_suspended : Bool
  pub is_deleted : Bool
  pub is_provisioning : Bool
  pub is_failed : Bool
  pub is_maintenance : Bool
  pub maintenance_message : Option String

-- `getConfig().maintenance`
pub record Maintenance : Type 0 where
  pub bypass_token : Option String
  pub bypass_header : Option String
  pub retry_after_seconds : Option ℕ
  pub default_message : Option String

pub data GuardError (E : Type 0) : Type 0 where
  tenant_suspended tenant_not_ready circuit_open : GuardError E
  tenant_maintenance : (retry_after_seconds : ℕ) (message : Option String) → GuardError E
  failed : E → GuardError E

abbrev pub or_other {ℓ} : {A : Type ℓ} → Option A → Option A → Option A
or_other none b = b
or_other (some a) b = some a

-- `request.url(false).split('?')[0]`, and the test of `ignorePaths`
pub is_ignored : List Text → Text → Bool
is_ignored ignore_paths url =
    let path = first (split b'?' url) in
    any (λ p. path == p || starts_with path (p ++ b'/' ∷ [])) ignore_paths

abbrev presents : Option String → String → Bool
presents none token = false
presents (some presented) token = presented == token

abbrev bypasses : (String → Option String) → Maintenance → Option String → Bool
bypasses header m none = false
bypasses header m (some token) =
    not (token == "")
    && presents (header (or_default m.bypass_header "x-tenant-bypass-maintenance")) token

-- `#hasMaintenanceBypass`: the header's text is the configured token
pub has_maintenance_bypass : (String → Option String) → Option Maintenance → Bool
has_maintenance_bypass header none = false
has_maintenance_bypass header (some m) = bypasses header m m.bypass_token

abbrev retry_of : Option Maintenance → ℕ
retry_of none = 600
retry_of (some m) = or_default m.retry_after_seconds 600

abbrev message_of : Option Maintenance → Option String
message_of none = none
message_of (some m) = m.default_message

module _ {W E : Type 0} where
  abbrev pub lift : {A : Type 0} → Effect (World W) E A → Effect (World W) (GuardError E) A
  lift call w = elim (call w).0 [
    | returned a ↦ (returned a, (call w).1)
    | thrown e ↦ (thrown (failed e), (call w).1)
  ]

  module _ (header : String → Option String) (maintenance : Option Maintenance)
      (is_open : String → World W → Bool) where
    -- the tests between `request.tenant()` and the run, in their order
    pub admit : TenantView → World W → Outcome (GuardError E) (Unit {0})
    unfolding has_maintenance_bypass
    admit t w =
        if t.is_suspended || t.is_deleted
        then thrown tenant_suspended
        else if t.is_provisioning || t.is_failed
        then thrown tenant_not_ready
        else if t.is_maintenance && not (has_maintenance_bypass header maintenance)
        then thrown (
            tenant_maintenance (retry_of maintenance)
              (or_other t.maintenance_message (message_of maintenance)))
        else if is_open t.id w
        then thrown circuit_open
        else returned tt

    abbrev pub enter :
        {T : Type 0}
        → Effect (World W) E T
        → TenantView
        → Outcome (GuardError E) (Unit {0})
        → Effect (World W) (GuardError E) T
    enter next t (thrown e) w = (thrown e, w)
    enter next t (returned _) w = lift (with_store t.id next) w

    -- `handle` behind `await request.tenant()`
    pub after_tenant :
        {T : Type 0}
        → Effect (World W) E T
        → Outcome E TenantView × World W
        → Outcome (GuardError E) T × World W
    unfolding admit
    after_tenant next (returned t, w) = enter next t (admit t w) w
    after_tenant next (thrown e, w) = (thrown (failed e), w)

    -- `handle`
    unfoldable pub handle :
        {T : Type 0}
        → List Text
        → Text
        → Effect (World W) E TenantView
        → Effect (World W) E T
        → Effect (World W) (GuardError E) T
    unfolding after_tenant is_ignored
    handle ignore_paths url tenant next w =
        if is_ignored ignore_paths url then lift next w else after_tenant next (tenant w)
