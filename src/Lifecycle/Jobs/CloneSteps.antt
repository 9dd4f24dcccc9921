-- ===== src/Lifecycle/Jobs/CloneSteps.antt =====
-- In which state `clone` of src/services/clone_service.ts leaves the tenants.
use adonisjs_lasagna_multite.Prelude.{◌≡◌, ◌⊎◌, inl, inr, refl, ap, ◌∙◌, Bool, none, list_eq}
use adonisjs_lasagna_multite.Prelude.Maps.{insert}
use adonisjs_lasagna_multite.Prelude.Effects.{
  Outcome, returned, thrown, Effect, ◌>>◌, pure, throw, Ends, Ends-weaken, Ends-bind,
}
use adonisjs_lasagna_multite.Lifecycle.Hooks.{run, before, clone}
use adonisjs_lasagna_multite.Lifecycle.Repository.{Tenant, active, failed, Repository}
use adonisjs_lasagna_multite.Lifecycle.Jobs.{
  World, JobError, of_clone, Driver, Services, lift, caught, written, save, with_status,
  copy_unless, swallowed, clone_steps, fail_clone, clone_or_fail,
}
use adonisjs_lasagna_multite.Lifecycle.Jobs.Rows.{lift-Ends}

module _ {O E Meta Copied : Type 0} (s : Services O E Meta Copied) where
  save_row-Ends :
      (t : Tenant) (w : World O)
      → Ends (λ _ w'. w'.rows ≡ insert t.id t w.rows) (λ _ w'. w'.rows ≡ w.rows) (save s t w)
  save_row-Ends t w = saved (s.write_row t w.outside)
    where
      saved :
          (r : Outcome E (Unit {0}) × O)
          → Ends
              (λ _ w'. w'.rows ≡ insert t.id t w.rows)
              (λ _ w'. w'.rows ≡ w.rows)
              (written s t w.rows r)
      saved (returned _, o) = refl
      saved (thrown e, o) = refl

  module _ (origin : World O) (source destination : Tenant)
      (schema_only clear_sessions : Bool) where
    -- From the start of the job on, the hooks before it return, the driver that is active then is
    -- there, it provisions and migrates the destination, and the data is copied unless only the
    -- schema is to be cloned.
    abbrev pub Cloned : Type 0
    Cloned =
        (driver : Driver O E) × (o₁ o₂ o₃ o₄ o₅ : O) × (copied : Copied) × (run s.log_failure before
            clone (of_clone source destination none) s.hooks origin.outside
          ≡ (returned tt, o₁))
        × (s.active_driver o₁ ≡ (returned driver, o₂))
        × (driver.provision_tenant destination o₂ ≡ (returned tt, o₃))
        × (driver.migrate_tenant destination o₃ ≡ (returned tt, o₄))
        × (copy_unless s schema_only clear_sessions source destination o₄ ≡ (returned copied, o₅))

    -- The rows are as they were, but for that of the destination, which is active; and the data is
    -- there.
    abbrev pub IsCloned : Repository → Type 0
    IsCloned r = (r ≡ insert destination.id (with_status s active destination) origin.rows) × Cloned

    abbrev pub CloneHaltedAt : Repository → Type 0
    CloneHaltedAt r =
        (r ≡ origin.rows)
        ⊎ ((r ≡ insert destination.id (with_status s failed destination) origin.rows) ⊎ IsCloned r)

    abbrev pub Same : World O → Type 0
    Same w = w.rows ≡ origin.rows

    abbrev pub Halted : JobError E → World O → Type 0
    Halted _ w = CloneHaltedAt w.rows

    -- A call in a state that allows for its failure.
    pub call-Ends :
        {A : Type 0} (R : Repository → Type 0) (X : JobError E → World O → Type 0)
        (call : Effect O E A) (w : World O)
        → ((e : JobError E) (v : World O) → R v.rows → X e v)
        → R w.rows
        → Ends
            (λ a v. R v.rows × (call w.outside ≡ (returned a, v.outside)))
            X
            (lift {E = E} call w)
    call-Ends R X call w late h =
        Ends-weaken (lift call w) (lift-Ends R call w h) (λ a v done. done)
          (λ e v kept. late e v kept)

    pub keep-Ends :
        {A : Type 0} (R : Repository → Type 0) (X : JobError E → World O → Type 0)
        (call : Effect O E A) (w : World O)
        → ((e : JobError E) (v : World O) → R v.rows → X e v)
        → R w.rows
        → Ends (λ _ v. R v.rows) X (lift {E = E} call w)
    keep-Ends R X call w late h =
        Ends-weaken (lift call w) (call-Ends R X call w late h) (λ _ v (kept, _). kept)
          (λ e v left. left)

    -- What has gone before, when the driver is there.
    abbrev pub Driven : Driver O E → O → Type 0
    Driven driver o =
        (o₁ : O) × (run s.log_failure before clone (of_clone source destination none) s.hooks
            origin.outside
          ≡ (returned tt, o₁))
        × (s.active_driver o₁ ≡ (returned driver, o))

    abbrev Steady : JobError E → World O → Type 0
    Steady _ v = Same v

    copied_steps-Ends :
        (driver : Driver O E) (w : World O)
        → Same w
        → Driven driver w.outside
        → Ends
            (λ _ v. Same v × Cloned)
            Steady
            ((lift (driver.provision_tenant destination)
                >> lift (driver.migrate_tenant destination)
                >> lift (copy_unless s schema_only clear_sessions source destination))
              w)
    copied_steps-Ends driver w same (o₁, hooked, driven) =
        let R = λ (r : Repository). r ≡ origin.rows in
        let provision = driver.provision_tenant destination in
        let migrate = driver.migrate_tenant destination in
        let copy = copy_unless s schema_only clear_sessions source destination in
        Ends-bind
          (λ _ v.
            Same v
            × (o : O) × (provision w.outside ≡ (returned tt, o))
            × (migrate o ≡ (returned tt, v.outside)))
          (λ _ v. Same v × Cloned) Steady (lift provision >> lift migrate) (λ _. lift copy) w
          (Ends-bind (λ _ v. Same v × (provision w.outside ≡ (returned tt, v.outside)))
            (λ _ v.
              Same v
              × (o : O) × (provision w.outside ≡ (returned tt, o))
              × (migrate o ≡ (returned tt, v.outside)))
            Steady (lift provision) (λ _. lift migrate) w
            (call-Ends R Steady provision w (λ e v kept. kept) same)
            (λ _ v (at, provisioned).
              Ends-weaken (lift migrate v) (call-Ends R Steady migrate v (λ e u kept. kept) at)
                (λ _ u (kept, migrated). (kept, v.outside, provisioned, migrated))
                (λ e u kept. kept)))
          (λ _ v (at, o, provisioned, migrated).
            Ends-weaken (lift copy v) (call-Ends R Steady copy v (λ e u kept. kept) at)
              (λ copied u (kept, copies). (
                kept,
                (
                  driver, o₁, w.outside, o, v.outside, u.outside, copied, hooked, driven,
                  provisioned, migrated, copies,
                ),
              ))
              (λ e u kept. kept))

    clone_steps-Ends :
        (driver : Driver O E) (w : World O)
        → Same w
        → Driven driver w.outside
        → Ends
            (λ _ v. IsCloned v.rows)
            Steady
            (clone_steps s driver source destination schema_only clear_sessions w)
    unfolding clone_steps
    clone_steps-Ends driver w same driven =
        let Ready = λ (v : World O). Same v × Cloned in
        let disconnect = swallowed s (driver.disconnect_tenant destination) in
        let activate = save s (with_status s active destination) in
        Ends-bind (λ _ v. Ready v) (λ _ v. IsCloned v.rows) Steady
          (lift (driver.provision_tenant destination)
            >> lift (driver.migrate_tenant destination)
            >> lift (copy_unless s schema_only clear_sessions source destination))
          (λ copied. lift disconnect >> activate >> pure copied) w
          (copied_steps-Ends driver w same driven)
          (λ copied v (at, cloned).
            Ends-bind (λ _ u. IsCloned u.rows) (λ (_ : Copied) u. IsCloned u.rows) Steady
              (lift disconnect >> activate) (λ _. pure copied) v
              (Ends-bind (λ _ u. Same u) (λ _ u. IsCloned u.rows) Steady (lift disconnect)
                (λ _. activate) v
                (keep-Ends (λ r. r ≡ origin.rows) Steady disconnect v (λ e u kept. kept) at)
                (λ _ u kept.
                  Ends-weaken (activate u) (save_row-Ends (with_status s active destination) u)
                    (λ _ x stored. (
                      stored ∙ ap (insert destination.id (with_status s active destination)) kept,
                      cloned,
                    ))
                    (λ e x unwritten. unwritten ∙ kept)))
              (λ _ u done. done))

    failed-Ends :
        (driver : Driver O E) (e : JobError E) (w : World O)
        → Same w
        → Ends (λ (_ : Copied) v. ⊥) Halted ((fail_clone s driver destination >> throw e) w)
    failed-Ends driver e w same =
        let mark = save s (with_status s failed destination) in
        let drop = swallowed s (driver.destroy_tenant (with_status s failed destination)) in
        let Marked = λ (r : Repository).
          r ≡ insert destination.id (with_status s failed destination) origin.rows in
        Ends-bind (λ _ v. Marked v.rows) (λ (_ : Copied) v. ⊥) Halted (mark >> lift drop)
          (λ _. throw e) w
          (Ends-bind (λ _ v. Marked v.rows) (λ _ v. Marked v.rows) Halted mark (λ _. lift drop) w
            (Ends-weaken (mark w) (save_row-Ends (with_status s failed destination) w)
              (λ _ v stored.
                stored ∙ ap (insert destination.id (with_status s failed destination)) same)
              (λ _ v unwritten. inl (unwritten ∙ same)))
            (λ _ v marked. keep-Ends Marked Halted drop v (λ _ u kept. inr (inl kept)) marked))
          (λ _ v marked. inr (inl marked))

    caught-Ends :
        (driver : Driver O E) (result : Outcome (JobError E) Copied × World O)
        → Ends (λ _ v. IsCloned v.rows) Steady result
        → Ends (λ _ v. IsCloned v.rows) Halted (caught (fail_clone s driver destination) result)
    caught-Ends driver (returned copied, w) h = h
    caught-Ends driver (thrown e, w) h =
        Ends-weaken ((fail_clone s driver destination >> throw e) w) (failed-Ends driver e w h)
          (λ _ v none_left. elim none_left [ ]) (λ _ v halted. halted)

    pub clone_or_fail-Ends :
        (driver : Driver O E) (w : World O)
        → Same w
        → Driven driver w.outside
        → Ends
            (λ _ v. IsCloned v.rows)
            Halted
            (clone_or_fail s driver source destination schema_only clear_sessions w)
    unfolding clone_or_fail
    clone_or_fail-Ends driver w same driven =
        caught-Ends driver (clone_steps s driver source destination schema_only clear_sessions w)
          (clone_steps-Ends driver w same driven)
