-- ===== src/Lifecycle/Purge/Tests.antt =====
-- A purge of concrete tenants, and a witness.
use adonisjs_lasagna_multite.Prelude.{
  ℕ, suc, ◌≡◌, ◌↔◌, refl, true, false, none, some, [], ◌∷◌, Listed, codes,
}
use adonisjs_lasagna_multite.Prelude.Effects.{returned, thrown}
use adonisjs_lasagna_multite.Lifecycle.Repository.{Tenant, active, from_initial, all_tenants}
use adonisjs_lasagna_multite.Lifecycle.Repository.Refinement.{
  added, apply_each, meant_each, meant_initial,
}
use adonisjs_lasagna_multite.Lifecycle.Hooks.{run}
use adonisjs_lasagna_multite.Lifecycle.Jobs.{Driver, Services}
use adonisjs_lasagna_multite.Lifecycle.Purge.{
  Flags, retention_of, candidates, none_purged, is_expired, run_purge,
}
use adonisjs_lasagna_multite.Lifecycle.Purge.Expiry.{
  IsExpired, IsIdle, IsAllowed, Tallied, run_purge-Expired,
}

abbrev gone : Tenant
gone = record {
  id = codes "a";
  name = codes "Acme";
  email = codes "a@a.org";
  status = active;
  custom_domain = none;
  created_at = 0;
  deleted_at = some 5;
}

abbrev driver : Driver ℕ ℕ
driver = record {
  provision_tenant = λ t n. (returned tt, n);
  destroy_tenant = λ t n. (thrown 1, suc n);
  migrate_tenant = λ t n. (returned tt, n);
  disconnect_tenant = λ t n. (returned tt, n);
}

-- the clock is the number of the calls
abbrev services : Services ℕ ℕ ℕ ℕ
services = record {
  hooks = [];
  log_failure = λ phase event e n. n;
  active_driver = λ n. (returned driver, n);
  write_row = λ t n. (returned tt, n);
  open_queue = λ id n. (returned tt, n);
  destroy_queue = λ id n. (returned tt, n);
  destroy_breaker = λ id n. (returned tt, n);
  backup_tenant = λ t n. (returned 9, n);
  restore_tenant = λ t file n. (returned tt, n);
  copy_data = λ source target clear n. (returned 3, n);
  nothing_copied = 0;
  dispatch = λ event n. (returned tt, n);
  now = λ n. n;
}

abbrev forced : Flags
forced = record { retention_days = some 1; dry_run = false; force = true; confirmed = false }

purge_tests :
    (run_purge services forced none ((codes "a", gone) ∷ []) 86400005
      ≡ (returned (record { purged = 0; failed = 1 }), 86400006))
    × (run_purge services forced none ((codes "a", gone) ∷ []) 86400004
        ≡ (returned (none_purged services), 86400004))
unfolding run_purge candidates is_expired all_tenants run
purge_tests = (refl, refl)

run_purge-Expired_example :
    ((t : Tenant)
      → Listed t (
          candidates
            (retention_of forced none)
            86400005
            (apply_each (added gone ∷ []) (from_initial [] [])))
        ↔ ((meant_each (added gone ∷ []) (meant_initial [] (λ id. none)) t.id ≡ some t)
            × IsExpired t (retention_of forced none) 86400005))
    × (IsIdle forced
        → run_purge services forced none
            (apply_each (added gone ∷ []) (from_initial [] []))
            86400005
          ≡ (returned (none_purged services), 86400005))
    × (IsAllowed forced
        → Tallied services
            (candidates
              (retention_of forced none)
              86400005
              (apply_each (added gone ∷ []) (from_initial [] [])))
            (run_purge services forced none
              (apply_each (added gone ∷ []) (from_initial [] []))
              86400005))
run_purge-Expired_example = run_purge-Expired services [] (added gone ∷ []) forced none 86400005
