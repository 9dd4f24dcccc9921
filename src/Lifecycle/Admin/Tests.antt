-- ===== src/Lifecycle/Admin/Tests.antt =====
-- The admin API on concrete tenants, and a witness.
use adonisjs_lasagna_multite.Prelude.{ℕ, suc, ◌≡◌, ◌⊎◌, refl, false, none, some, [], ◌∷◌, codes}
use adonisjs_lasagna_multite.Prelude.Effects.{returned, thrown, Ends}
use adonisjs_lasagna_multite.Lifecycle.Hooks.{run}
use adonisjs_lasagna_multite.Lifecycle.Repository.{Tenant, active, suspended, find_by_id}
use adonisjs_lasagna_multite.Lifecycle.Jobs.{World, thrown_by_call, Driver, Services}
use adonisjs_lasagna_multite.Lifecycle.Admin.{
  Dispatches, not_found, changed, unchanged, name_and_email_required, activate, suspend,
  create_provisioning, restore, destroy_by_id,
}
use adonisjs_lasagna_multite.Lifecycle.Admin.Destroying.{IsDone, IsMarked, destroy_by_id-Marked}

abbrev acme : Tenant
acme = record {
  id = codes "a";
  name = codes "Acme";
  email = codes "a@a.org";
  status = active;
  custom_domain = none;
  created_at = 0;
  deleted_at = none;
}

-- a driver that is down
abbrev driver : Driver ℕ ℕ
driver = record {
  provision_tenant = λ t n. (thrown 1, n);
  destroy_tenant = λ t n. (thrown 1, n);
  migrate_tenant = λ t n. (returned tt, n);
  disconnect_tenant = λ t n. (returned tt, n);
}

abbrev services : Services ℕ ℕ ℕ ℕ
services = record {
  hooks = [];
  log_failure = λ phase event e n. n;
  active_driver = λ n. (returned driver, n);
  write_row = λ t n. (returned tt, suc n);
  open_queue = λ id n. (returned tt, n);
  destroy_queue = λ id n. (returned tt, n);
  destroy_breaker = λ id n. (returned tt, n);
  backup_tenant = λ t n. (returned 9, n);
  restore_tenant = λ t file n. (returned tt, n);
  copy_data = λ source target clear n. (returned 3, n);
  nothing_copied = 0;
  dispatch = λ event n. (returned tt, n);
  now = λ n. n;
}

abbrev calls : Dispatches ℕ ℕ
calls = record {
  tenant_created = λ t n. (returned tt, n);
  install_tenant = λ id n. (returned tt, n);
  tenant_activated = λ t n. (returned tt, n);
  tenant_suspended = λ t n. (returned tt, n);
}

abbrev world : World ℕ
world = record { rows = (codes "a", acme) ∷ []; outside = 7 }

abbrev marked : World ℕ
marked = record { rows = (codes "a", record acme { deleted_at = some 7 }) ∷ []; outside = 8 }

admin_tests :
    ((activate services calls (codes "a") world).0 ≡ returned (unchanged acme))
    × ((suspend services calls (codes "a") world).0
        ≡ returned (changed (record acme { status = suspended })))
    × ((suspend services calls (codes "b") world).0 ≡ returned not_found)
    × ((create_provisioning services calls (codes "n") (codes " ") (codes "x") world).0
        ≡ returned name_and_email_required)
    × (destroy_by_id services calls (codes "a") false world ≡ (thrown (thrown_by_call 1), marked))
    × (destroy_by_id services calls (codes "a") false marked ≡ (returned not_found, marked))
    × ((restore services calls (codes "a") marked).0 ≡ returned (changed acme))
unfolding activate suspend create_provisioning destroy_by_id restore find_by_id run
admin_tests = (refl, refl, refl, refl, refl, refl, refl)

destroy_by_id-Marked_example :
    Ends
      (λ _ w'. IsDone services calls world acme false w'.rows)
      (λ _ w'.
        (w'.rows ≡ world.rows)
        ⊎ (IsMarked services calls world acme w'.rows
            × (destroy_by_id services calls (codes "a") false w' ≡ (returned not_found, w'))))
      (destroy_by_id services calls (codes "a") false world)
unfolding find_by_id
destroy_by_id-Marked_example =
    destroy_by_id-Marked services calls (codes "a") acme false world refl refl
