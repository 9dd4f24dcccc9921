-- ===== src/Lifecycle/Jobs/Sequence.antt =====
-- What src/jobs/backup_tenant.ts and restore_tenant.ts do, in their order.
use adonisjs_lasagna_multite.Prelude.{◌≡◌, refl, ap, ◌∙◌, false, Text}
use adonisjs_lasagna_multite.Prelude.Effects.{Outcome, returned, thrown, Effect, ◌>>=◌, ◌>>◌}
use adonisjs_lasagna_multite.Lifecycle.Hooks.{Event, before, after, backup, restore, hooks_for, run}
use adonisjs_lasagna_multite.Lifecycle.Hooks.Running.{chain, settle, run-meaning}
use adonisjs_lasagna_multite.Lifecycle.Repository.{Tenant, NotFound, find_by_id_or_fail}
use adonisjs_lasagna_multite.Lifecycle.Jobs.{
  World, JobError, Context, of_tenant, of_backup, of_restore, TenantEvent, tenant_backed_up,
  tenant_restored, Services, relay, lift, found, hook_run, execute_backup, execute_restore,
}

module _ {O E A B : Type 0} where
  -- A call that goes on with calls that do not write the tenants is such a call.
  lift-bind :
      (m n : Effect O E A) (f : A → Effect (World O) (JobError E) B) (g : A → Effect O E B)
      (w : World O)
      → m w.outside ≡ n w.outside
      → ((a : A) (v : World O) → f a v ≡ lift (g a) v)
      → (lift m >>= f) w ≡ lift (n >>= g) w
  lift-bind m n f g w same then_same =
      ap (λ (r : Outcome E A × O). ((λ (_ : World O). relay {E = E} w.rows r) >>= f) w) same
      ∙ bound (n w.outside)
    where
      bound :
          (r : Outcome E A × O)
          → ((λ (_ : World O). relay {E = E} w.rows r) >>= f) w
            ≡ relay w.rows (((λ (_ : O). r) >>= g) w.outside)
      bound (returned a, o) = then_same a (record { rows = w.rows; outside = o })
      bound (thrown e, o) = refl

module _ {O E Meta Copied : Type 0} (s : Services O E Meta Copied) (event : Event) where
  -- the hooks behind an operation: all of them run, and none of them fails it
  abbrev pub settled : Context Meta Copied → Effect O E (Unit {0})
  settled context o =
      (returned tt, settle s.log_failure event context (hooks_for after event s.hooks) o)

module _ {O E Meta Copied A : Type 0} (s : Services O E Meta Copied) (event : Event) where
  -- The hooks before an operation, up to the first one that throws; the operation; the hooks behind
  -- it; the event.
  abbrev pub around :
      Context Meta Copied
      → Effect O E A
      → (A → Context Meta Copied)
      → (A → TenantEvent Meta Copied)
      → Effect O E (Unit {0})
  around context operation context_of event_of =
      chain s.log_failure event context (hooks_for before event s.hooks)
      >> (operation >>= λ a. settled s event (context_of a) >> s.dispatch (event_of a))

  around-lift :
      (context : Context Meta Copied) (operation : Effect O E A)
      (context_of : A → Context Meta Copied) (event_of : A → TenantEvent Meta Copied) (w : World O)
      → (hook_run s before event context
            >> (lift operation >>= λ a.
                hook_run s after event (context_of a) >> lift (s.dispatch (event_of a))))
          w
        ≡ lift (around context operation context_of event_of) w
  around-lift context operation context_of event_of w =
      lift-bind (run s.log_failure before event context s.hooks)
        (chain s.log_failure event context (hooks_for before event s.hooks))
        (λ _. lift operation >>= λ a.
          hook_run s after event (context_of a) >> lift (s.dispatch (event_of a)))
        (λ _. operation >>= λ a. settled s event (context_of a) >> s.dispatch (event_of a)) w
        (run-meaning s.log_failure event context before s.hooks w.outside)
        (λ _ v.
          lift-bind operation operation
            (λ a. hook_run s after event (context_of a) >> lift (s.dispatch (event_of a)))
            (λ a. settled s event (context_of a) >> s.dispatch (event_of a)) v refl
            (λ a u.
              lift-bind (run s.log_failure after event (context_of a) s.hooks)
                (settled s event (context_of a)) (λ _. lift (s.dispatch (event_of a)))
                (λ _. s.dispatch (event_of a)) u
                (run-meaning s.log_failure event (context_of a) after s.hooks u.outside)
                (λ _ x. refl)))

module _ {O E Meta Copied : Type 0} (s : Services O E Meta Copied) (w : World O) where
  -- The jobs that back up and restore a tenant leave every row of the tenants as it is, and do what
  -- their sequence says: the hooks before it, of which the first error ends the job with the
  -- operation never called; the operation; then all hooks behind it, whose errors do not reach the
  -- job; then the event.
  pub jobs-around :
      (id file : Text) (t : Tenant)
      → find_by_id_or_fail id false w.rows ≡ returned t
      → (execute_backup s id w
          ≡ lift
              (around s backup (of_tenant t) (s.backup_tenant t) (of_backup t) (tenant_backed_up t))
              w)
        × (execute_restore s id file w
            ≡ lift
                (around s restore
                  (of_restore t file)
                  (s.restore_tenant t file)
                  (λ _. of_restore t file)
                  (λ _. tenant_restored t file))
                w)
  unfolding execute_backup execute_restore
  jobs-around id file t there =
      let with_found =
        λ (job : Tenant → Effect (World O) (JobError E) (Unit {0})) (o : Outcome NotFound Tenant).
          (found {O = O} {E = E} o >>= job) w in
      (
        ap
              (with_found (λ u.
                hook_run s before backup (of_tenant u)
                >> (lift (s.backup_tenant u) >>= λ metadata.
                    hook_run s after backup (of_backup u metadata)
                    >> lift (s.dispatch (tenant_backed_up u metadata)))))
              there
            ∙ around-lift s backup (of_tenant t) (s.backup_tenant t) (of_backup t)
                (tenant_backed_up t) w,
        ap
              (with_found (λ u.
                hook_run s before restore (of_restore u file)
                >> (lift (s.restore_tenant u file) >>= λ _.
                    hook_run s after restore (of_restore u file)
                    >> lift (s.dispatch (tenant_restored u file)))))
              there
            ∙ around-lift s restore (of_restore t file) (s.restore_tenant t file)
                (λ _. of_restore t file) (λ _. tenant_restored t file) w,
      )
