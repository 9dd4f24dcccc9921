-- ===== src/Lifecycle/Jobs.antt =====
-- src/jobs: the five queued jobs on tenants, with the hooks round their operation, and
-- src/services/clone_service.ts, which one of them calls. The tenants are
-- those of a repository, whose rows a `save` writes; hooks, drivers, queues, backups and events are
-- arbitrary calls on the rest of the world that may throw. Log lines are left out, and the log
-- context that a job runs in is that of Tenancy/Context.
pub mod Rows
pub mod Provisioning
pub mod Removal
pub mod Sequence
pub mod CloneSteps
pub mod Cloning
mod Tests
use adonisjs_lasagna_multite.Prelude.{ℕ, Bool, true, false, Option, none, some, Text, list_eq}
use adonisjs_lasagna_multite.Prelude.Maps.{insert}
use adonisjs_lasagna_multite.Prelude.Effects.{
  Outcome, returned, thrown, Effect, ◌>>=◌, ◌>>◌, pure, throw,
}
use adonisjs_lasagna_multite.Lifecycle.Hooks.{
  Phase, before, after, Event, provision, destroy, backup, restore, clone, Registry, run,
}
use adonisjs_lasagna_multite.Lifecycle.Repository.{
  Tenant, Status, provisioning, active, failed, Repository, NotFound, find_by_id_or_fail,
}

pub record World (O : Type 0) : Type 0 where
  pub rows : Repository
  pub outside : O

pub data JobError (E : Type 0) : Type 0 where
  tenant_not_found : Text → JobError E
  thrown_by_call : E → JobError E

-- the argument of the hooks of each event
pub data Context (Meta Copied : Type 0) : Type 0 where
  of_tenant : Tenant → Context Meta Copied
  of_backup : Tenant → Meta → Context Meta Copied
  of_restore : Tenant → Text → Context Meta Copied
  of_clone : Tenant → Tenant → Option Copied → Context Meta Copied

pub data TenantEvent (Meta Copied : Type 0) : Type 0 where
  tenant_provisioned tenant_deleted : Tenant → TenantEvent Meta Copied
  tenant_backed_up : Tenant → Meta → TenantEvent Meta Copied
  tenant_restored : Tenant → Text → TenantEvent Meta Copied
  tenant_cloned : Tenant → Tenant → Copied → TenantEvent Meta Copied

-- `IsolationDriver`, as far as the jobs call it
pub record Driver (O E : Type 0) : Type 0 where
  pub provision_tenant : Tenant → Effect O E (Unit {0})
  pub destroy_tenant : Tenant → Effect O E (Unit {0})
  pub migrate_tenant : Tenant → Effect O E (Unit {0})
  pub disconnect_tenant : Tenant → Effect O E (Unit {0})

-- `Copied` counts the tables and rows of a clone.
pub record Services (O E Meta Copied : Type 0) : Type 0 where
  pub hooks : Registry O E (Context Meta Copied)
  pub log_failure : Phase → Event → E → O → O
  pub active_driver : Effect O E (Driver O E)
  pub write_row : Tenant → Effect O E (Unit {0})
  pub open_queue : Text → Effect O E (Unit {0})
  pub destroy_queue : Text → Effect O E (Unit {0})
  pub destroy_breaker : Text → Effect O E (Unit {0})
  pub backup_tenant : Tenant → Effect O E Meta
  pub restore_tenant : Tenant → Text → Effect O E (Unit {0})
  pub copy_data : Tenant → Tenant → Bool → Effect O E Copied
  pub nothing_copied : Copied
  pub dispatch : TenantEvent Meta Copied → Effect O E (Unit {0})
  pub now : O → ℕ

module _ {O E : Type 0} where
  abbrev pub relay : {A : Type 0} → Repository → Outcome E A × O → Outcome (JobError E) A × World O
  relay rows (returned a, o) = (returned a, record { rows = rows; outside = o })
  relay rows (thrown e, o) = (thrown (thrown_by_call e), record { rows = rows; outside = o })

  -- a call that does not write the tenants
  abbrev pub lift : {A : Type 0} → Effect O E A → Effect (World O) (JobError E) A
  lift call w = relay w.rows (call w.outside)

  abbrev pub found : Outcome NotFound Tenant → Effect (World O) (JobError E) Tenant
  found (returned t) = pure t
  found (thrown e) = throw (tenant_not_found e.id)

  -- `repo.findByIdOrFail`
  abbrev pub find : Text → Bool → Effect (World O) (JobError E) Tenant
  find id include_deleted w = found (find_by_id_or_fail id include_deleted w.rows) w

  -- the catch of `InstallTenant`
  abbrev pub caught :
      {A : Type 0}
      → Effect (World O) (JobError E) (Unit {0})
      → Outcome (JobError E) A × World O
      → Outcome (JobError E) A × World O
  caught handler (returned a, w) = (returned a, w)
  caught handler (thrown e, w) = (handler >> throw e) w

module _ {O E Meta Copied : Type 0} (s : Services O E Meta Copied) where
  abbrev pub written :
      Tenant → Repository → Outcome E (Unit {0}) × O → Outcome (JobError E) (Unit {0}) × World O
  written t rows (returned _, o) = (returned tt, record { rows = insert t.id t rows; outside = o })
  written t rows (thrown e, o) = (thrown (thrown_by_call e), record { rows = rows; outside = o })

  -- `tenant.save()`
  abbrev pub save : Tenant → Effect (World O) (JobError E) (Unit {0})
  save t w = written t w.rows (s.write_row t w.outside)

  abbrev pub hook_run :
      Phase → Event → Context Meta Copied → Effect (World O) (JobError E) (Unit {0})
  hook_run phase event context = lift (run s.log_failure phase event context s.hooks)

  abbrev pub with_status : Status → Tenant → Tenant
  with_status status t = record t { status = status }

  -- the `try` of `InstallTenant`
  pub provision_steps : Driver O E → Tenant → Effect (World O) (JobError E) (Unit {0})
  provision_steps driver t =
      save (with_status provisioning t)
      >> lift (driver.provision_tenant (with_status provisioning t))
      >> save (with_status active t)

  pub provision_or_fail : Driver O E → Tenant → Effect (World O) (JobError E) (Unit {0})
  unfolding provision_steps
  provision_or_fail driver t w = caught (save (with_status failed t)) (provision_steps driver t w)

  abbrev pub finish_install : Tenant → Effect (World O) (JobError E) (Unit {0})
  finish_install t =
      lift (s.open_queue t.id)
      >> hook_run after provision (of_tenant (with_status active t))
      >> lift (s.dispatch (tenant_provisioned (with_status active t)))

  -- `InstallTenant.execute`
  pub execute_install : Text → Effect (World O) (JobError E) (Unit {0})
  unfolding provision_or_fail
  execute_install id = find id false >>= λ t.
      hook_run before provision (of_tenant t)
      >> (lift s.active_driver >>= λ driver. provision_or_fail driver t)
      >> finish_install t

  abbrev pub mark_deleted : Tenant → Effect (World O) (JobError E) Tenant
  mark_deleted t w =
      let gone = record t { deleted_at = some (s.now w.outside) } in (save gone >> pure gone) w

  abbrev pub tear_down : Tenant → Effect (World O) (JobError E) (Unit {0})
  tear_down t =
      lift (s.destroy_queue t.id)
      >> lift (s.destroy_breaker t.id)
      >> (lift s.active_driver >>= λ driver. lift (driver.destroy_tenant t))

  abbrev pub finish_uninstall : Tenant → Effect (World O) (JobError E) (Unit {0})
  finish_uninstall gone =
      hook_run after destroy (of_tenant gone) >> lift (s.dispatch (tenant_deleted gone))

  -- `UninstallTenant.execute`
  pub execute_uninstall : Text → Effect (World O) (JobError E) (Unit {0})
  execute_uninstall id = find id true >>= λ t.
      hook_run before destroy (of_tenant t) >> tear_down t >> (mark_deleted t >>= finish_uninstall)

  -- `BackupTenant.execute`
  pub execute_backup : Text → Effect (World O) (JobError E) (Unit {0})
  execute_backup id = find id false >>= λ t.
      hook_run before backup (of_tenant t)
      >> (lift (s.backup_tenant t) >>= λ metadata.
          hook_run after backup (of_backup t metadata)
          >> lift (s.dispatch (tenant_backed_up t metadata)))

  -- `RestoreTenant.execute`
  pub execute_restore : Text → Text → Effect (World O) (JobError E) (Unit {0})
  execute_restore id file = find id false >>= λ t.
      hook_run before restore (of_restore t file)
      >> (lift (s.restore_tenant t file) >>= λ _.
          hook_run after restore (of_restore t file) >> lift (s.dispatch (tenant_restored t file)))

  -- the data, unless only the schema is cloned
  abbrev pub copy_unless : Bool → Bool → Tenant → Tenant → Effect O E Copied
  copy_unless true clear_sessions source destination = pure s.nothing_copied
  copy_unless false clear_sessions source destination =
      s.copy_data source destination clear_sessions

  -- `.catch(...)` behind a call whose failure is at most logged
  abbrev pub swallowed : Effect O E (Unit {0}) → Effect O E (Unit {0})
  swallowed call o = (returned tt, (call o).1)

  -- the `try` of `clone`
  pub clone_steps :
      Driver O E → Tenant → Tenant → Bool → Bool → Effect (World O) (JobError E) Copied
  clone_steps driver source destination schema_only clear_sessions =
      lift (driver.provision_tenant destination)
      >> lift (driver.migrate_tenant destination)
      >> lift (copy_unless schema_only clear_sessions source destination)
      >>= λ copied.
          lift (swallowed (driver.disconnect_tenant destination))
          >> save (with_status active destination)
          >> pure copied

  -- its `catch`
  abbrev pub fail_clone : Driver O E → Tenant → Effect (World O) (JobError E) (Unit {0})
  fail_clone driver destination =
      save (with_status failed destination)
      >> lift (swallowed (driver.destroy_tenant (with_status failed destination)))

  pub clone_or_fail :
      Driver O E → Tenant → Tenant → Bool → Bool → Effect (World O) (JobError E) Copied
  unfolding clone_steps
  clone_or_fail driver source destination schema_only clear_sessions w =
      caught (fail_clone driver destination)
        (clone_steps driver source destination schema_only clear_sessions w)

  abbrev pub finish_clone : Tenant → Tenant → Copied → Effect (World O) (JobError E) (Unit {0})
  finish_clone source destination copied =
      lift (s.open_queue destination.id)
      >> hook_run after clone (of_clone source (with_status active destination) (some copied))
      >> lift (s.dispatch (tenant_cloned source (with_status active destination) copied))

  -- `CloneService.clone`
  abbrev pub clone_tenant : Tenant → Tenant → Bool → Bool → Effect (World O) (JobError E) Copied
  clone_tenant source destination schema_only clear_sessions = lift s.active_driver >>= λ driver.
      clone_or_fail driver source destination schema_only clear_sessions

  -- `CloneTenant.execute`; of two tenants that are missing the source is named
  pub execute_clone : Text → Text → Bool → Bool → Effect (World O) (JobError E) (Unit {0})
  execute_clone source_id destination_id schema_only clear_sessions =
      find source_id false >>= λ source. find destination_id false >>= λ destination.
      hook_run before clone (of_clone source destination none)
      >> (clone_tenant source destination schema_only clear_sessions >>= λ copied.
          finish_clone source destination copied)
