-- ===== src/Lifecycle/Jobs/Provisioning.antt =====
-- In which state src/jobs/install_tenant.ts and src/jobs/uninstall_tenant.ts leave a tenant.
use adonisjs_lasagna_multite.Lifecycle.Jobs.{throw}
use adonisjs_lasagna_multite.Prelude.{
  ◌≡◌, ◌⊎◌, inl, inr, refl, sym, ap, ◌∙◌, subst, false, Text, list_eq,
}
use adonisjs_lasagna_multite.Prelude.Effects.{
  Outcome, returned, thrown, Effect, ◌>>=◌, ◌>>◌, throw, Ends, Ends-weaken, Ends-bind,
}
use adonisjs_lasagna_multite.Lifecycle.Hooks.{run, before, after, provision}
use adonisjs_lasagna_multite.Lifecycle.Repository.{
  Tenant, provisioning, active, failed, Repository, NotFound, find_by_id_or_fail,
}
use adonisjs_lasagna_multite.Lifecycle.Jobs.{
  World, JobError, tenant_not_found, thrown_by_call, of_tenant, tenant_provisioned, Driver,
  Services, relay, lift, found, caught, save, hook_run, with_status, provision_steps,
  provision_or_fail, finish_install, execute_install,
}
use adonisjs_lasagna_multite.Lifecycle.Jobs.Rows.{lift-Ends, save-Ends, Stored, FailsToWrite}

module _ {O E Meta Copied : Type 0} (s : Services O E Meta Copied) where
  -- From the outside world `start` on, the hooks before the job return, the driver that is active
  -- then is there, the tenant is written as being provisioned, and that driver provisions it.
  abbrev pub Provisioned : O → Tenant → Type 0
  Provisioned start t =
      (driver : Driver O E) × (o₁ o₂ o₃ o₄ : O) × (run s.log_failure before provision (of_tenant t)
          s.hooks start
        ≡ (returned tt, o₁))
      × (s.active_driver o₁ ≡ (returned driver, o₂))
      × (s.write_row (with_status s provisioning t) o₂ ≡ (returned tt, o₃))
      × (driver.provision_tenant (with_status s provisioning t) o₃ ≡ (returned tt, o₄))

  -- How far a job that fails may have come.
  abbrev pub HaltedAt : World O → Tenant → Repository → Type 0
  HaltedAt w t rows' =
      (rows' ≡ w.rows)
      ⊎ (Stored (with_status s failed t) rows'
          ⊎ ((Stored (with_status s provisioning t) rows' × FailsToWrite s (with_status s failed t))
              ⊎ (Stored (with_status s active t) rows' × Provisioned w.outside t)))

  module _ (origin : World O) (t : Tenant) where
    -- What has gone before, when the driver is there.
    abbrev Driven : Driver O E → O → Type 0
    Driven driver o =
        (o₁ : O) × (run s.log_failure before provision (of_tenant t) s.hooks origin.outside
          ≡ (returned tt, o₁))
        × (s.active_driver o₁ ≡ (returned driver, o))

    provision_steps-Ends :
        (driver : Driver O E) (w : World O)
        → w.rows ≡ origin.rows
        → Driven driver w.outside
        → Ends
            (λ _ w'. Stored (with_status s active t) w'.rows × Provisioned origin.outside t)
            (λ _ w'. (w'.rows ≡ origin.rows) ⊎ Stored (with_status s provisioning t) w'.rows)
            (provision_steps s driver t w)
    unfolding provision_steps
    provision_steps-Ends driver w start (o₁, hooked, driven) =
        let Begun = λ (_ : Unit {0}) (w' : World O).
          Stored (with_status s provisioning t) w'.rows
          × (s.write_row (with_status s provisioning t) w.outside ≡ (returned tt, w'.outside)) in
        let Ready = λ (_ : Unit {0}) (w' : World O).
          Stored (with_status s provisioning t) w'.rows × Provisioned origin.outside t in
        let Done = λ (_ : Unit {0}) (w' : World O).
          Stored (with_status s active t) w'.rows × Provisioned origin.outside t in
        let Halted = λ (_ : JobError E) (w' : World O).
          (w'.rows ≡ origin.rows) ⊎ Stored (with_status s provisioning t) w'.rows in
        let call = driver.provision_tenant (with_status s provisioning t) in
        Ends-bind Ready Done Halted (save s (with_status s provisioning t) >> lift call)
          (λ _. save s (with_status s active t)) w
          (Ends-bind Begun Ready Halted (save s (with_status s provisioning t)) (λ _. lift call) w
            (Ends-weaken (save s (with_status s provisioning t) w)
              (save-Ends s (λ r. r ≡ origin.rows) (with_status s provisioning t) w start)
              (λ _ w' h. h) (λ e w' h. inl h.0))
            (λ _ w' (begun, written).
              Ends-weaken (lift call w')
                (lift-Ends (Stored (with_status s provisioning t)) call w' begun)
                (λ _ v (kept, returns). (
                  kept,
                  (driver, o₁, w.outside, w'.outside, v.outside, hooked, driven, written, returns),
                ))
                (λ e v kept. inr kept)))
          (λ _ w' (ready, provisioned).
            Ends-weaken (save s (with_status s active t) w')
              (save-Ends s (Stored (with_status s provisioning t)) (with_status s active t) w'
                ready)
              (λ _ v (done, _). (done, provisioned)) (λ e v (kept, _). inr kept))

    failed_save-Ends :
        (e : JobError E) (w : World O)
        → (w.rows ≡ origin.rows) ⊎ Stored (with_status s provisioning t) w.rows
        → Ends
            (λ (_ : Unit {0}) w'. ⊥)
            (λ _ w'. HaltedAt origin t w'.rows)
            (((save s (with_status s failed t)) >> throw e) w)
    failed_save-Ends e w h =
        let Written = λ (_ : Unit {0}) (w' : World O). Stored (with_status s failed t) w'.rows in
        let Halted = λ (_ : JobError E) (w' : World O). HaltedAt origin t w'.rows in
        Ends-bind Written (λ (_ : Unit {0}) (w' : World O). ⊥) Halted
          (save s (with_status s failed t)) (λ _. throw e) w
          (Ends-weaken (save s (with_status s failed t) w)
            (save-Ends s (λ r. (r ≡ origin.rows) ⊎ Stored (with_status s provisioning t) r)
              (with_status s failed t) w h)
            (λ _ v (done, _). done)
            (λ _ v (at, fails). elim at [
              | inl unchanged ↦ inl unchanged
              | inr begun ↦ inr (inr (inl (begun, fails)))
            ]))
          (λ _ v done. inr (inl done))

    caught-Ends :
        (result : Outcome (JobError E) (Unit {0}) × World O)
        → Ends
            (λ _ w'. Stored (with_status s active t) w'.rows × Provisioned origin.outside t)
            (λ _ w'. (w'.rows ≡ origin.rows) ⊎ Stored (with_status s provisioning t) w'.rows)
            result
        → Ends
            (λ _ w'. Stored (with_status s active t) w'.rows × Provisioned origin.outside t)
            (λ _ w'. HaltedAt origin t w'.rows)
            (caught (save s (with_status s failed t)) result)
    caught-Ends (returned _, w') h = h
    caught-Ends (thrown e, w') h =
        Ends-weaken (((save s (with_status s failed t)) >> throw e) w') (failed_save-Ends e w' h)
          (λ _ v none_left. elim none_left [ ]) (λ _ v halted. halted)

    provision_or_fail-Ends :
        (driver : Driver O E) (w : World O)
        → w.rows ≡ origin.rows
        → Driven driver w.outside
        → Ends
            (λ _ w'. Stored (with_status s active t) w'.rows × Provisioned origin.outside t)
            (λ _ w'. HaltedAt origin t w'.rows)
            (provision_or_fail s driver t w)
    unfolding provision_or_fail
    provision_or_fail-Ends driver w start driven =
        caught-Ends (provision_steps s driver t w) (provision_steps-Ends driver w start driven)

    module _ (R : Repository → Type 0) (late : (r : Repository) → R r → HaltedAt origin t r) where
      -- a call that keeps the rows, in a state that allows for its failure
      kept-Ends :
          {A : Type 0} (call : Effect O E A) (w : World O)
          → R w.rows
          → Ends (λ _ w'. R w'.rows) (λ _ w'. HaltedAt origin t w'.rows) (lift {E = E} call w)
      kept-Ends call w h =
          Ends-weaken (lift call w) (lift-Ends R call w h) (λ a v kept. kept.0)
            (λ e v kept. late v.rows kept)

      then_kept-Ends :
          {A : Type 0} (m : Effect (World O) (JobError E) (Unit {0})) (call : Effect O E A)
          (w : World O)
          → Ends (λ _ w'. R w'.rows) (λ _ w'. HaltedAt origin t w'.rows) (m w)
          → Ends (λ _ w'. R w'.rows) (λ _ w'. HaltedAt origin t w'.rows) ((m >> lift call) w)
      then_kept-Ends {A} m call w h =
          Ends-bind (λ _ w'. R w'.rows) (λ (_ : A) w'. R w'.rows)
            (λ _ w'. HaltedAt origin t w'.rows) m (λ _. lift call) w h
            (λ _ w' at. kept-Ends call w' at)

    -- The tenant is active, and a driver has provisioned it.
    abbrev IsInstalled : Repository → Type 0
    IsInstalled r = Stored (with_status s active t) r × Provisioned origin.outside t

    finish_install-Ends :
        (w : World O)
        → IsInstalled w.rows
        → Ends
            (λ _ w'. IsInstalled w'.rows)
            (λ _ w'. HaltedAt origin t w'.rows)
            (finish_install s t w)
    finish_install-Ends w done =
        let late : (r : Repository) → IsInstalled r → HaltedAt origin t r =
          λ r h. inr (inr (inr h)) in
        let hooks =
          run s.log_failure after provision (of_tenant (with_status s active t)) s.hooks in
        then_kept-Ends IsInstalled late (lift (s.open_queue t.id) >> lift hooks)
          (s.dispatch (tenant_provisioned (with_status s active t))) w
          (then_kept-Ends IsInstalled late (lift (s.open_queue t.id)) hooks w
            (kept-Ends IsInstalled late (s.open_queue t.id) w done))

    install_found-Ends :
        (w : World O)
        → w.rows ≡ origin.rows
        → w.outside ≡ origin.outside
        → Ends
            (λ _ w'. IsInstalled w'.rows)
            (λ _ w'. HaltedAt origin t w'.rows)
            ((hook_run s before provision (of_tenant t)
                >> (lift s.active_driver >>= λ driver. provision_or_fail s driver t)
                >> finish_install s t)
              w)
    install_found-Ends w start outside =
        let Same = λ (r : Repository). r ≡ origin.rows in
        let Halted = λ (_ : JobError E) (w' : World O). HaltedAt origin t w'.rows in
        let Installed = λ (_ : Unit {0}) (w' : World O). IsInstalled w'.rows in
        let run_before = run s.log_failure before provision (of_tenant t) s.hooks in
        let Hooked = λ (_ : Unit {0}) (w' : World O).
          Same w'.rows × (run_before origin.outside ≡ (returned tt, w'.outside)) in
        let hooks = hook_run s before provision (of_tenant t) in
        let provisioned = lift s.active_driver >>= λ driver. provision_or_fail s driver t in
        Ends-bind Installed Installed Halted (hooks >> provisioned) (λ _. finish_install s t) w
          (Ends-bind Hooked Installed Halted hooks (λ _. provisioned) w
            (Ends-weaken (hooks w) (lift-Ends Same run_before w start)
              (λ _ v (same, hooked). (same, ap run_before (sym outside) ∙ hooked))
              (λ e v same. inl same))
            (λ _ w' (same, hooked).
              Ends-bind (λ driver v. Same v.rows × Driven driver v.outside) Installed Halted
                (lift s.active_driver) (λ driver. provision_or_fail s driver t) w'
                (Ends-weaken (lift s.active_driver w') (lift-Ends Same s.active_driver w' same)
                  (λ driver v (at, driven). (at, (w'.outside, hooked, driven))) (λ e v at. inl at))
                (λ driver v (at, driven). provision_or_fail-Ends driver v at driven)))
          (λ _ w' done. finish_install-Ends w' done)

  -- The job that installs a tenant. A tenant that the repository does not find is named by the
  -- error. Otherwise a job that returns leaves the tenant active, and the driver that was active behind
  -- the hooks has provisioned it; a job that throws leaves the rows as they were, or the tenant failed, or still being provisioned,
  -- and then the write of its failure has failed too, or active, and then that driver has provisioned
  -- it. A hook that throws beforehand vetoes all of that: no row changes, and nothing else is called.
  pub execute_install-Installed :
      (id : Text) (w : World O)
      → ((e : NotFound)
          → find_by_id_or_fail id false w.rows ≡ thrown e
          → execute_install s id w ≡ (thrown (tenant_not_found e.id), w))
        × ((t : Tenant)
            → find_by_id_or_fail id false w.rows ≡ returned t
            → Ends
                (λ _ w'. Stored (with_status s active t) w'.rows × Provisioned w.outside t)
                (λ _ w'. HaltedAt w t w'.rows)
                (execute_install s id w))
        × ((t : Tenant) (e : E) (o : O)
            → find_by_id_or_fail id false w.rows ≡ returned t
            → run s.log_failure before provision (of_tenant t) s.hooks w.outside ≡ (thrown e, o)
            → execute_install s id w ≡ (thrown (thrown_by_call e), record w { outside = o }))
  unfolding execute_install
  execute_install-Installed id w =
      let job = λ (t : Tenant).
        hook_run s before provision (of_tenant t)
        >> (lift s.active_driver >>= λ driver. provision_or_fail s driver t)
        >> finish_install s t in
      let with_found = λ (o : Outcome NotFound Tenant). (found {O = O} {E = E} o >>= job) w in
      (
        (λ e missing. ap with_found missing),
        (λ t there.
            subst
              (λ o.
                Ends (λ _ w'. Stored (with_status s active t) w'.rows × Provisioned w.outside t)
                  (λ _ w'. HaltedAt w t w'.rows) (with_found o))
              (sym there) (install_found-Ends w t w refl refl)),
        (λ t e o there vetoed.
            ap with_found there
            ∙ ap
                (λ (r : Outcome E (Unit {0}) × O).
                  ((λ (_ : World O). relay {E = E} w.rows r)
                      >> (lift s.active_driver >>= λ driver. provision_or_fail s driver t)
                      >> finish_install s t)
                    w)
                vetoed),
      )
