-- ===== src/Lifecycle/Jobs/Tests.antt =====
-- The jobs on concrete tenants, and witnesses.
use adonisjs_lasagna_multite.Prelude.{ℕ, suc, ◌≡◌, refl, true, false, none, some, [], ◌∷◌, codes}
use adonisjs_lasagna_multite.Prelude.Effects.{returned, thrown, Effect, Ends}
use adonisjs_lasagna_multite.Lifecycle.Hooks.{before, provision, backup, restore, run}
use adonisjs_lasagna_multite.Lifecycle.Repository.{
  Tenant, active, failed, NotFound, find_by_id_or_fail,
}
use adonisjs_lasagna_multite.Lifecycle.Jobs.{
  World, tenant_not_found, thrown_by_call, of_tenant, of_backup, of_restore, tenant_backed_up,
  tenant_restored, Driver, Services, lift, with_status, execute_install, execute_uninstall,
  execute_backup, execute_restore, clone_steps, clone_or_fail, execute_clone,
}
use adonisjs_lasagna_multite.Lifecycle.Jobs.Rows.{Stored}
use adonisjs_lasagna_multite.Lifecycle.Jobs.Provisioning.{
  Provisioned, HaltedAt, execute_install-Installed,
}
use adonisjs_lasagna_multite.Lifecycle.Jobs.Removal.{
  IsRemoved, RemovedOrSame, execute_uninstall-Removed,
}
use adonisjs_lasagna_multite.Lifecycle.Jobs.Sequence.{around, jobs-around}
use adonisjs_lasagna_multite.Lifecycle.Jobs.CloneSteps.{IsCloned, CloneHaltedAt}
use adonisjs_lasagna_multite.Lifecycle.Jobs.Cloning.{execute_clone-Cloned}

abbrev acme : Tenant
acme = record {
  id = codes "a";
  name = codes "Acme";
  email = codes "a@a.org";
  status = failed;
  custom_domain = none;
  created_at = 0;
  deleted_at = none;
}

-- The outside counts its calls.
abbrev counted : Effect ℕ ℕ (Unit {0})
counted n = (returned tt, suc n)

abbrev driver : Driver ℕ ℕ
driver = record {
  provision_tenant = λ t. counted;
  destroy_tenant = λ t. counted;
  migrate_tenant = λ t. counted;
  disconnect_tenant = λ t. counted;
}

abbrev services : Services ℕ ℕ ℕ ℕ
services = record {
  hooks = [];
  log_failure = λ phase event e n. n;
  active_driver = λ n. (returned driver, n);
  write_row = λ t. counted;
  open_queue = λ id. counted;
  destroy_queue = λ id. counted;
  destroy_breaker = λ id. counted;
  backup_tenant = λ t n. (returned 9, suc n);
  restore_tenant = λ t file. counted;
  copy_data = λ source target clear n. (returned 3, suc n);
  nothing_copied = 0;
  dispatch = λ event. counted;
  now = λ n. n;
}

abbrev world : World ℕ
world = record { rows = (codes "a", acme) ∷ []; outside = 0 }

abbrev broken : Services ℕ ℕ ℕ ℕ
broken = record services {
  active_driver = λ n. (returned (record driver { provision_tenant = λ t n. (thrown 7, n) }), n);
}

job_tests :
    (execute_install services (codes "a") world ≡ (
      returned tt,
      record { rows = (codes "a", with_status services active acme) ∷ []; outside = 5 },
    ))
    × (execute_install broken (codes "a") world ≡ (
      thrown (thrown_by_call 7),
      record { rows = (codes "a", with_status services failed acme) ∷ []; outside = 2 },
    ))
    × (execute_install services (codes "b") world ≡ (thrown (tenant_not_found (codes "b")), world))
    × (execute_uninstall services (codes "a") world ≡ (
      returned tt,
      record { rows = (codes "a", record acme { deleted_at = some 3 }) ∷ []; outside = 5 },
    ))
unfolding execute_install execute_uninstall find_by_id_or_fail run
job_tests = (refl, refl, refl, refl)

execute_install-Installed_example :
    ((e : NotFound)
      → find_by_id_or_fail (codes "a") false world.rows ≡ thrown e
      → execute_install broken (codes "a") world ≡ (thrown (tenant_not_found e.id), world))
    × ((t : Tenant)
        → find_by_id_or_fail (codes "a") false world.rows ≡ returned t
        → Ends
            (λ _ w'.
              Stored (with_status broken active t) w'.rows × Provisioned broken world.outside t)
            (λ _ w'. HaltedAt broken world t w'.rows)
            (execute_install broken (codes "a") world))
    × ((t : Tenant) (e o : ℕ)
        → find_by_id_or_fail (codes "a") false world.rows ≡ returned t
        → run broken.log_failure before provision (of_tenant t) broken.hooks world.outside
          ≡ (thrown e, o)
        → execute_install broken (codes "a") world
          ≡ (thrown (thrown_by_call e), record world { outside = o }))
execute_install-Installed_example = execute_install-Installed broken (codes "a") world

execute_uninstall-Removed_example :
    Ends
      (λ _ w'. IsRemoved services world acme w'.rows)
      (λ _ w'. RemovedOrSame services world acme w'.rows)
      (execute_uninstall services (codes "a") world)
unfolding find_by_id_or_fail
execute_uninstall-Removed_example = execute_uninstall-Removed services (codes "a") acme world refl

jobs-around_example :
    (execute_backup services (codes "a") world
      ≡ lift
          (around services backup
            (of_tenant acme)
            (services.backup_tenant acme)
            (of_backup acme)
            (tenant_backed_up acme))
          world)
    × (execute_restore services (codes "a") (codes "f") world
        ≡ lift
            (around services restore
              (of_restore acme (codes "f"))
              (services.restore_tenant acme (codes "f"))
              (λ _. of_restore acme (codes "f"))
              (λ _. tenant_restored acme (codes "f")))
            world)
unfolding find_by_id_or_fail
jobs-around_example = jobs-around services world (codes "a") (codes "f") acme refl

abbrev copy_of_acme : Tenant
copy_of_acme = record acme { id = codes "b" }

abbrev two : World ℕ
two = record { rows = (codes "a", acme) ∷ (codes "b", copy_of_acme) ∷ []; outside = 0 }

clone_tests :
    (execute_clone services (codes "a") (codes "b") false true two ≡ (
      returned tt,
      record {
        rows = (codes "a", acme) ∷ (codes "b", with_status services active copy_of_acme) ∷ [];
        outside = 7;
      },
    ))
    × (execute_clone broken (codes "a") (codes "b") false true two ≡ (
      thrown (thrown_by_call 7),
      record {
        rows = (codes "a", acme) ∷ (codes "b", with_status broken failed copy_of_acme) ∷ [];
        outside = 2;
      },
    ))
unfolding execute_clone clone_or_fail clone_steps find_by_id_or_fail run
clone_tests = (refl, refl)

execute_clone-Cloned_example :
    Ends
      (λ _ v. IsCloned broken two acme copy_of_acme false true v.rows)
      (λ _ v. CloneHaltedAt broken two acme copy_of_acme false true v.rows)
      (execute_clone broken (codes "a") (codes "b") false true two)
unfolding find_by_id_or_fail
execute_clone-Cloned_example =
    execute_clone-Cloned broken (codes "a") (codes "b") acme copy_of_acme false true two refl refl
