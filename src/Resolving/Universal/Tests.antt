-- ===== src/Resolving/Universal/Tests.antt =====
-- The two middlewares on concrete requests, and a witness.
use adonisjs_lasagna_multite.Prelude.{
  ℕ, String, ◌≡◌, refl, true, false, none, some, Option, [], codes,
}
use adonisjs_lasagna_multite.Prelude.Effects.{returned, thrown, Effect}
use adonisjs_lasagna_multite.Tenancy.Context.{with_store}
use adonisjs_lasagna_multite.Resolving.Builtins.{id, domain}
use adonisjs_lasagna_multite.Resolving.Guard.{TenantView}
use adonisjs_lasagna_multite.Resolving.Universal.{
  Requested, Services, central_route_violation, try_resolve, handle_universal, handle_central,
}
use adonisjs_lasagna_multite.Resolving.Universal.Degrading.{
  Resolves, Degrades, handle_universal-degrades,
}

abbrev shop : TenantView
shop = record {
  id = "shop";
  is_suspended = false;
  is_deleted = false;
  is_provisioning = false;
  is_failed = false;
  is_maintenance = true;
  maintenance_message = none;
}

-- the calls that `warn` has made are counted
abbrev services : Services (Requested ℕ) ℕ
services = record {
  resolve_tenant = λ w. (returned (some (domain (codes "shop.org"))), w);
  make_repository = λ w. (returned true, w);
  find_by_id = λ i include_deleted w. (returned none, w);
  find_by_domain = λ d w. (returned (some shop), w);
  connect = λ t w. (returned tt, w);
  warn = λ kind e w. record w { outer = record w.outer { outer = 1 } };
}

abbrev broken : Services (Requested ℕ) ℕ
broken = record services { connect = λ t w. (thrown 7, w) }

abbrev world : Requested ℕ
world = record { store = none; cached = true; outer = record { memo = none; outer = 0 } }

abbrev answer_store : Effect (Requested ℕ) ℕ (Option String)
answer_store w = (returned w.store, w)

universal_tests :
    ((handle_universal services answer_store world).0 ≡ returned (some "shop"))
    × ((handle_universal services answer_store world).1.outer.memo ≡ some shop)
    × ((handle_universal broken answer_store world).0 ≡ returned none)
    × ((handle_universal broken answer_store world).1.outer.outer ≡ 1)
    × ((handle_central {E = ℕ} {T = ℕ}
          (λ (w : ℕ). (returned (some (id [])), w))
          (λ w. (returned 5, w))
          0).0
        ≡ thrown central_route_violation)
unfolding handle_universal try_resolve with_store handle_central
universal_tests = (refl, refl, refl, refl, refl)

handle_universal-degrades_example :
    ((t : TenantView) (w' : Requested ℕ)
      → Resolves services world t w'
      → (handle_universal services answer_store world ≡ with_store t.id answer_store w')
        × (w'.outer.memo ≡ some t))
    × (((t : TenantView) (w' : Requested ℕ) → ¬ Resolves services world t w')
        → (w' : Requested ℕ) × (handle_universal services answer_store world ≡ answer_store w')
          × Degrades services world w')
handle_universal-degrades_example = handle_universal-degrades services answer_store world
