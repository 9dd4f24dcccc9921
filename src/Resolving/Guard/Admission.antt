-- ===== src/Resolving/Guard/Admission.antt =====
-- Which requests `TenantGuardMiddleware` (src/middleware/tenant_guard_middleware.ts) lets through.
use adonisjs_lasagna_multite.Prelude.{
  String, ◌≡◌, ◌≢◌, ◌⊎◌, ◌↔◌, refl, ◌∙◌, sym, ap, subst, Bool, true, false, Option, List, arith,
  Text,
}
use adonisjs_lasagna_multite.Prelude.Effects.{Outcome, returned, thrown, Effect}
use adonisjs_lasagna_multite.Tenancy.Context.{World, with_store}
use adonisjs_lasagna_multite.Resolving.Guard.{
  TenantView, Maintenance, GuardError, failed, has_maintenance_bypass, is_ignored, lift, admit,
  enter, after_tenant, handle,
}

-- A tenant that may be served.
abbrev pub IsServed : TenantView → Bool → Bool → Type 0
IsServed t bypass is_open =
    (t.is_suspended ≡ false)
    × (t.is_deleted ≡ false)
    × (t.is_provisioning ≡ false)
    × (t.is_failed ≡ false)
    × ((t.is_maintenance ≡ false) ⊎ (bypass ≡ true))
    × (is_open ≡ false)

thrown-ne :
    {E : Type 0} (e : GuardError E)
    → ◌≢◌ {A = Outcome (GuardError E) (Unit {0})} (thrown e) (returned tt)
thrown-ne e same = cc

module _ {W E : Type 0} (header : String → Option String) (maintenance : Option Maintenance)
    (is_open : String → World W → Bool) where
  admit_iff :
      (t : TenantView) (w : World W)
      → (admit {E = E} header maintenance is_open t w ≡ returned tt)
        ↔ IsServed t (has_maintenance_bypass header maintenance) (is_open t.id w)
  unfolding admit
  admit_iff t w = (ground arith, ground arith)

  -- What the guard does with a tenant that is resolved: it runs the rest of the request with the
  -- tenant's id in the store, or throws and runs nothing.
  abbrev pub Guarded :
      {T : Type 0}
      → Effect (World W) E T
      → TenantView
      → World W
      → Outcome (GuardError E) T × World W
      → Type 0
  Guarded next t w result =
      (IsServed t (has_maintenance_bypass header maintenance) (is_open t.id w)
        → result ≡ lift (with_store t.id next) w)
      × (¬ IsServed t (has_maintenance_bypass header maintenance) (is_open t.id w)
          → (e : GuardError E) × (result ≡ (thrown e, w)))

  enter-Guarded :
      {T : Type 0} (next : Effect (World W) E T) (t : TenantView) (w : World W)
      (admitted : Outcome (GuardError E) (Unit {0}))
      → admit {E = E} header maintenance is_open t w ≡ admitted
      → Guarded next t w (enter header maintenance is_open next t admitted w)
  enter-Guarded next t w (returned u) e =
      ((λ served. refl), (λ refused. absurd (refused ((admit_iff t w).0 e))))
  enter-Guarded next t w (thrown x) e =
      ((λ served. absurd (thrown-ne x (sym e ∙ (admit_iff t w).1 served))), (λ refused. (x, refl)))

  -- A request to an ignored path runs without a tenant. For any other, a failure of
  -- `request.tenant()` is passed on; with a tenant that is neither suspended, deleted, being
  -- provisioned nor failed, not in maintenance unless the request bypasses that, and whose circuit
  -- is not open, the rest of the request runs with the tenant's id in the store; with any other
  -- tenant the guard throws and nothing of the request runs.
  pub handle-Guarded :
      {T : Type 0} (ignore_paths : List Text) (url : Text) (tenant : Effect (World W) E TenantView)
      (next : Effect (World W) E T) (w : World W)
      → (is_ignored ignore_paths url ≡ true
          → handle header maintenance is_open ignore_paths url tenant next w ≡ lift next w)
        × (is_ignored ignore_paths url ≡ false
            → ((e : E) (w' : World W)
                → tenant w ≡ (thrown e, w')
                → handle header maintenance is_open ignore_paths url tenant next w
                  ≡ (thrown (failed e), w'))
              × ((t : TenantView) (w' : World W)
                  → tenant w ≡ (returned t, w')
                  → Guarded next t w'
                      (handle header maintenance is_open ignore_paths url tenant next w)))
  unfolding handle after_tenant
  handle-Guarded ignore_paths url tenant next w = (
    (λ ignored. rw ignored refl),
    (λ guarded. (
      (λ e w' fails. rw guarded (ap (after_tenant header maintenance is_open next) fails)),
      (λ t w' found. rw guarded (
          subst (λ r. Guarded next t w' (after_tenant header maintenance is_open next r))
            (sym found) (enter-Guarded next t w' _ refl))),
    )),
  )
