-- ===== src/Lifecycle/Admin.antt =====
-- src/admin/admin_controller.ts: the operations of the admin API on the state of tenants, over the
-- services of the jobs. The parameters of a request are arguments, and a response is its code with
-- the tenant that is serialized into it. `activate` and `suspend` of a tenant are its model's: they
-- set the status and save it.
pub mod Destroying
mod Tests
use adonisjs_lasagna_multite.Prelude.{
  ℕ, Bool, true, false, ◌||◌, not, Option, none, some, List, [], ◌∷◌, length, if◌then◌else◌, ◌==◌,
  list_eq, Text, trim,
}
use adonisjs_lasagna_multite.Prelude.Effects.{Outcome, returned, thrown, Effect, pure, ◌>>=◌, ◌>>◌}
use adonisjs_lasagna_multite.Lifecycle.Hooks.{before, after, destroy}
use adonisjs_lasagna_multite.Lifecycle.Repository.{
  Tenant, Status, provisioning, active, suspended, same_status, is_deleted, find_by_id, all_tenants,
  create,
}
use adonisjs_lasagna_multite.Lifecycle.Jobs.{
  World, JobError, of_tenant, tenant_deleted, Services, lift, save, hook_run, with_status,
}

pub data Response : Type 0 where
  not_found name_and_email_required : Response
  listed : List Tenant → ℕ → Response
  shown unchanged changed created : Tenant → Response
  destroyed : Tenant → (schema_dropped : Bool) → Response

-- The events and the job that the controller dispatches besides those of the jobs.
pub record Dispatches (O E : Type 0) : Type 0 where
  pub tenant_created : Tenant → Effect O E (Unit {0})
  pub install_tenant : Text → Effect O E (Unit {0})
  pub tenant_activated : Tenant → Effect O E (Unit {0})
  pub tenant_suspended : Tenant → Effect O E (Unit {0})

module _ {O E : Type 0} where
  -- `repo.findById`, and 404 where it finds none
  abbrev pub or_not_found :
      (Tenant → Effect (World O) (JobError E) Response)
      → Option Tenant
      → Effect (World O) (JobError E) Response
  or_not_found next none w = (returned not_found, w)
  or_not_found next (some t) w = next t w

  abbrev pub with_found :
      Text
      → Bool
      → (Tenant → Effect (World O) (JobError E) Response)
      → Effect (World O) (JobError E) Response
  with_found id include_deleted next w = or_not_found next (find_by_id id include_deleted w.rows) w

  -- `list`, with the status where it is a valid one
  pub list : Bool → Option Status → Effect (World O) (JobError E) Response
  list include_deleted status w =
      let tenants =
        all_tenants
          (record {
            include_deleted = include_deleted;
            statuses = elim status [ none ↦ none | some s ↦ some (s ∷ []) ];
          })
          w.rows in
      (returned (listed tenants (length tenants)), w)

  -- `show`
  pub show : Text → Effect (World O) (JobError E) Response
  show id = with_found id true (λ t. pure (shown t))

module _ {O E Meta Copied : Type 0} (s : Services O E Meta Copied) (calls : Dispatches O E) where
  abbrev create_tenant : Text → Text → Text → Effect (World O) (JobError E) Tenant
  create_tenant fresh name email w =
      let (tenant, rows) = create fresh (s.now w.outside) name email provisioning w.rows in
      (returned tenant, record w { rows = rows })

  -- `create`, where `fresh` is the new id
  pub create_provisioning : Text → Text → Text → Effect (World O) (JobError E) Response
  create_provisioning fresh name email =
      if (trim name == []) || (trim email == [])
      then pure name_and_email_required
      else create_tenant fresh (trim name) (trim email) >>= λ t.
          lift (calls.tenant_created t) >> lift (calls.install_tenant t.id) >> pure (created t)

  -- `activate`
  pub activate : Text → Effect (World O) (JobError E) Response
  activate id = with_found id true (λ t.
      if same_status t.status active
      then pure (unchanged t)
      else save s (with_status s active t)
        >> lift (calls.tenant_activated (with_status s active t))
        >> pure (changed (with_status s active t)))

  -- `suspend`
  pub suspend : Text → Effect (World O) (JobError E) Response
  suspend id = with_found id true (λ t.
      if same_status t.status suspended
      then pure (unchanged t)
      else save s (with_status s suspended t)
        >> lift (calls.tenant_suspended (with_status s suspended t))
        >> pure (changed (with_status s suspended t)))

  abbrev pub deleted_now : Tenant → World O → Tenant
  deleted_now t w = record t { deleted_at = some (s.now w.outside) }

  abbrev pub mark_deleted : Tenant → Effect (World O) (JobError E) Tenant
  mark_deleted t w = (save s (deleted_now t w) >> pure (deleted_now t w)) w

  abbrev pub drop_unless : Bool → Tenant → Effect (World O) (JobError E) (Unit {0})
  drop_unless true gone = pure tt
  drop_unless false gone = lift s.active_driver >>= λ driver. lift (driver.destroy_tenant gone)

  abbrev pub finish_destroy : Bool → Tenant → Effect (World O) (JobError E) Response
  finish_destroy keep_schema gone =
      drop_unless keep_schema gone
      >> hook_run s after destroy (of_tenant gone)
      >> lift (s.dispatch (tenant_deleted gone))
      >> pure (destroyed gone (not keep_schema))

  abbrev pub destroy_found : Bool → Tenant → Effect (World O) (JobError E) Response
  destroy_found keep_schema t =
      hook_run s before destroy (of_tenant t) >> mark_deleted t >>= finish_destroy keep_schema

  -- `destroy`
  pub destroy_by_id : Text → Bool → Effect (World O) (JobError E) Response
  destroy_by_id id keep_schema = with_found id false (destroy_found keep_schema)

  abbrev pub restore_found : Tenant → Effect (World O) (JobError E) Response
  restore_found t =
      let back = record t { deleted_at = none } in
      if not (is_deleted t) then pure (unchanged t) else save s back >> pure (changed back)

  -- `restore`
  pub restore : Text → Effect (World O) (JobError E) Response
  restore id = with_found id true restore_found
