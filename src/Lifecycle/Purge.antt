-- ===== src/Lifecycle/Purge.antt =====
-- src/utils/soft_delete.ts and src/commands/tenant_purge_expired.ts: the purge of tenants that were
-- deleted long enough ago. The question at the prompt is an argument, log lines are left out, and
-- times are milliseconds.
pub mod Expiry
mod Tests
use adonisjs_lasagna_multite.Prelude.{
  ℕ, suc, ◌+◌, ◌*◌, Bool, true, false, ◌&&◌, ◌||◌, not, Option, none, some, List, [], ◌∷◌, filter,
  leb, nat_beq, length, if◌then◌else◌, or_default,
}
use adonisjs_lasagna_multite.Prelude.Effects.{Outcome, returned, thrown, Effect, ◌>>◌}
use adonisjs_lasagna_multite.Lifecycle.Hooks.{before, after, destroy, run}
use adonisjs_lasagna_multite.Lifecycle.Repository.{Tenant, Repository, is_deleted, all_tenants}
use adonisjs_lasagna_multite.Lifecycle.Jobs.{of_tenant, tenant_deleted, Driver, Services}

abbrev pub default_retention_days : ℕ
default_retention_days = 30

-- `deletedMs <= now - retentionDays * 86400_000`
pub is_expired : Option ℕ → ℕ → ℕ → Bool
is_expired none retention_days now = false
is_expired (some deleted_at) retention_days now = leb (deleted_at + retention_days * 86400000) now

-- the flags of the command, with the answer at its prompt
pub record Flags : Type 0 where
  pub retention_days : Option ℕ
  pub dry_run : Bool
  pub force : Bool
  pub confirmed : Bool

-- `this.retentionDays ?? cfg?.retentionDays ?? DEFAULT_SOFT_DELETE_RETENTION_DAYS`
abbrev pub retention_of : Flags → Option ℕ → ℕ
retention_of flags configured =
    or_default flags.retention_days (or_default configured default_retention_days)

pub candidates : ℕ → ℕ → Repository → List Tenant
unfolding is_expired
candidates retention_days now rows =
    filter (λ t. is_deleted t && is_expired t.deleted_at retention_days now)
      (all_tenants (record { include_deleted = true; statuses = none }) rows)

-- how many were purged and how many failed
pub record Tally : Type 0 where
  pub purged : ℕ
  pub failed : ℕ

module _ {O E Meta Copied : Type 0} (s : Services O E Meta Copied) where
  abbrev pub purge_one : Driver O E → Tenant → Effect O E (Unit {0})
  purge_one driver t =
      run s.log_failure before destroy (of_tenant t) s.hooks
      >> driver.destroy_tenant t
      >> run s.log_failure after destroy (of_tenant t) s.hooks
      >> s.dispatch (tenant_deleted t)

  abbrev pub counted : Outcome E (Unit {0}) → Tally → Tally
  counted (returned _) tally = record tally { purged = suc tally.purged }
  counted (thrown e) tally = record tally { failed = suc tally.failed }

  -- the loop of `run`; the error of one tenant does not keep the others
  abbrev pub purge_each : Driver O E → List Tenant → Tally × O → Tally × O
  purge_each driver [] (tally, o) = (tally, o)
  purge_each driver (t ∷ ts) (tally, o) =
      let (result, o') = purge_one driver t o in purge_each driver ts (counted result tally, o')

  abbrev pub none_purged : Tally
  none_purged = record { purged = 0; failed = 0 }

  abbrev pub purge_with : List Tenant → Outcome E (Driver O E) × O → Outcome E Tally × O
  purge_with ts (thrown e, o) = (thrown e, o)
  purge_with ts (returned driver, o) =
      let (tally, o') = purge_each driver ts (none_purged, o) in (returned tally, o')

  abbrev pub purge_found : Flags → List Tenant → O → Outcome E Tally × O
  purge_found flags [] o = (returned none_purged, o)
  purge_found flags (t ∷ ts) o =
      if flags.dry_run
      then (returned none_purged, o)
      else if not flags.force && not flags.confirmed
      then (returned none_purged, o)
      else purge_with (t ∷ ts) (s.active_driver o)

  -- `run`, with the configured retention; the exit code is 1 where a tenant has failed
  pub run_purge : Flags → Option ℕ → Repository → O → Outcome E Tally × O
  unfolding candidates
  run_purge flags configured rows o =
      purge_found flags (candidates (retention_of flags configured) (s.now o) rows) o
