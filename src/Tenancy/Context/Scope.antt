-- ===== src/Tenancy/Context/Scope.antt =====
-- What code sees inside and after `tenancy.run` (src/tenancy.ts).
use adonisjs_lasagna_multite.Prelude.{
  String, ◌≡◌, refl, sym, subst, some, true, List, [], ◌∷◌, All, arith,
}
use adonisjs_lasagna_multite.Prelude.Effects.{Outcome, returned, thrown, Effect}
use adonisjs_lasagna_multite.Prelude.Maps.{values}
use adonisjs_lasagna_multite.Tenancy.Bootstrap.{Bootstrapper, Registry, leave_safely}
use adonisjs_lasagna_multite.Tenancy.Bootstrap.Invariant.{IsValid}
use adonisjs_lasagna_multite.Tenancy.Bootstrap.Nesting.{enclose, nested, run_scoped-nested}
use adonisjs_lasagna_multite.Tenancy.Context.{World, Tenant, run, current_id}

module _ {W E Ctx T : Type 0} (log_failure : String → E → W → W) (ctx : Ctx) where
  enclose-at :
      (P : W → Type 0) (Q : Outcome E T → Type 0) (body : Effect W E T) (leave : W → W)
      (o : Outcome E (Unit {0}) × W)
      → ((w : W) → P w → Q (body w).0)
      → ((e : E) → Q (thrown e))
      → P o.1
      → Q (enclose body leave o).0
  enclose-at P Q body leave (returned _, w) good bad p = good w p
  enclose-at P Q body leave (thrown e, w) good bad p = bad e

  -- What every `enter` keeps still holds where `fn` is called.
  nested-at :
      (P : W → Type 0) (Q : Outcome E T → Type 0) (bs : List (Bootstrapper W E Ctx))
      (fn : Effect W E T)
      → All (λ b. (w : W) → P w → P (b.enter ctx w).1) bs
      → ((w : W) → P w → Q (fn w).0)
      → ((e : E) → Q (thrown e))
      → (w : W) → P w
      → Q (nested log_failure ctx bs fn w).0
  unfolding nested
  nested-at P Q [] fn keep good bad w p = good w p
  nested-at P Q (b ∷ bs) fn (k, keep) good bad w p =
      enclose-at P Q (nested log_failure ctx bs fn) (leave_safely log_failure ctx b) (b.enter ctx w)
        (λ w' p'. nested-at P Q bs fn keep good bad w' p') bad (k w p)

module _ {W E : Type 0} (log_failure : String → E → World W → World W) where
  -- The tenant `id` is active.
  abbrev pub IsActive : String → World W → Type 0
  IsActive id w = (w.store ≡ some id) × (w.cached ≡ true)

  -- No `enter` callback ends with another store or cache; async local storage gives it no way to.
  abbrev pub KeepsActive : String → Registry (World W) E Tenant → Tenant → Type 0
  KeepsActive id r tenant =
      All (λ b. (w : World W) → IsActive id w → IsActive id (b.enter tenant w).1) (values r.items)

  -- Inside `tenancy.run(tenant, fn)` the active tenant is `tenant`: if the registry is valid and
  -- its callbacks leave the store alone, whatever holds of the results of `fn` in the worlds where
  -- `tenant` is the current tenant holds of the result of `run`, unless an error was thrown.
  pub run-current_id :
      {T : Type 0} (r : Registry (World W) E Tenant) (tenant : Tenant) (fn : Effect (World W) E T)
      (Q : Outcome E T → Type 0) (w : World W)
      → IsValid r
      → KeepsActive tenant.id r tenant
      → ((v : World W) → current_id v ≡ some tenant.id → Q (fn v).0)
      → ((e : E) → Q (thrown e))
      → Q (run log_failure r tenant fn w).0
  unfolding run current_id
  run-current_id r tenant fn Q w valid keep good bad =
      subst (λ o. Q o.0) (sym (run_scoped-nested log_failure tenant r fn valid _))
        (nested-at log_failure tenant (IsActive tenant.id) Q (values r.items) fn keep
          (λ v a. good v (ground arith)) bad _ (refl, refl))

  -- After `tenancy.run`, however it ended, the store is what it was before: scopes nest.
  pub run-store :
      {T : Type 0} (r : Registry (World W) E Tenant) (tenant : Tenant) (fn : Effect (World W) E T)
      (w : World W)
      → (run log_failure r tenant fn w).1.store ≡ w.store
  unfolding run
  run-store r tenant fn w = refl
