-- ===== src/Lifecycle/Jobs/Removal.antt =====
-- In which state src/jobs/uninstall_tenant.ts leaves a tenant.
use adonisjs_lasagna_multite.Prelude.{
  ℕ, ◌≡◌, ◌⊎◌, inl, inr, refl, sym, ap, ◌∙◌, subst, true, some, Text, list_eq,
}
use adonisjs_lasagna_multite.Prelude.Effects.{
  Outcome, returned, Effect, pure, ◌>>=◌, ◌>>◌, Ends, Ends-weaken, Ends-bind,
}
use adonisjs_lasagna_multite.Lifecycle.Hooks.{run, before, after, destroy}
use adonisjs_lasagna_multite.Lifecycle.Repository.{Tenant, Repository, find_by_id_or_fail}
use adonisjs_lasagna_multite.Lifecycle.Jobs.{
  World, JobError, of_tenant, tenant_deleted, Driver, Services, lift, found, save, hook_run,
  mark_deleted, tear_down, finish_uninstall, execute_uninstall,
}
use adonisjs_lasagna_multite.Lifecycle.Jobs.Rows.{lift-Ends, save-Ends, Stored}

module _ {O E Meta Copied : Type 0} (s : Services O E Meta Copied) (origin : World O)
    (t : Tenant) where
  -- From the start of the job on, the hooks before it return, the queue and the breaker of the tenant
  -- are destroyed, the driver that is active then is there, and it removes what it keeps of the
  -- tenant.
  abbrev pub Destroyed : Type 0
  Destroyed =
      (driver : Driver O E) × (o₁ o₂ o₃ o₄ o₅ : O) × (run s.log_failure before destroy (of_tenant t)
          s.hooks origin.outside
        ≡ (returned tt, o₁))
      × (s.destroy_queue t.id o₁ ≡ (returned tt, o₂))
      × (s.destroy_breaker t.id o₂ ≡ (returned tt, o₃))
      × (s.active_driver o₃ ≡ (returned driver, o₄))
      × (driver.destroy_tenant t o₄ ≡ (returned tt, o₅))

  abbrev pub deleted_from : ℕ → Tenant
  deleted_from at = record t { deleted_at = some at }

  -- The row says that the tenant is deleted, and it is.
  abbrev pub IsRemoved : Repository → Type 0
  IsRemoved r = (at : ℕ) × Stored (deleted_from at) r × Destroyed

  abbrev pub RemovedOrSame : Repository → Type 0
  RemovedOrSame r = (r ≡ origin.rows) ⊎ IsRemoved r

  abbrev EndsSame : {A : Type 0} → Outcome (JobError E) A × World O → Type 0
  EndsSame = Ends (λ _ w'. w'.rows ≡ origin.rows) (λ _ w'. RemovedOrSame w'.rows)

  kept-Ends :
      {A : Type 0} (call : Effect O E A) (w : World O)
      → w.rows ≡ origin.rows
      → EndsSame (lift {E = E} call w)
  kept-Ends call w same =
      Ends-weaken (lift call w) (lift-Ends (λ r. r ≡ origin.rows) call w same) (λ a v kept. kept.0)
        (λ e v kept. inl kept)

  call_behind-Ends :
      {A : Type 0} (call : Effect O E A) (w : World O)
      → IsRemoved w.rows
      → Ends (λ _ w'. IsRemoved w'.rows) (λ _ w'. RemovedOrSame w'.rows) (lift {E = E} call w)
  call_behind-Ends call w gone =
      Ends-weaken (lift call w) (lift-Ends IsRemoved call w gone) (λ a v kept. kept.0)
        (λ e v kept. inr kept)

  abbrev TornDown : Unit {0} → World O → Type 0
  TornDown _ w' = (w'.rows ≡ origin.rows) × Destroyed

  abbrev Halted : JobError E → World O → Type 0
  Halted _ w' = RemovedOrSame w'.rows

  -- As `kept-Ends`, with the call that has been made.
  done-Ends :
      {A : Type 0} (call : Effect O E A) (w : World O)
      → w.rows ≡ origin.rows
      → Ends
          (λ a w'. (w'.rows ≡ origin.rows) × (call w.outside ≡ (returned a, w'.outside)))
          Halted
          (lift {E = E} call w)
  done-Ends call w same =
      Ends-weaken (lift call w) (lift-Ends (λ r. r ≡ origin.rows) call w same) (λ a v done. done)
        (λ e v kept. inl kept)

  tear_down-Ends :
      (w : World O)
      → w.rows ≡ origin.rows
      → run s.log_failure before destroy (of_tenant t) s.hooks origin.outside
        ≡ (returned tt, w.outside)
      → Ends TornDown Halted (tear_down s t w)
  tear_down-Ends w start hooked =
      let Same = λ (w' : World O). w'.rows ≡ origin.rows in
      let Emptied = λ (_ : Unit {0}) (w' : World O).
        Same w' × (s.destroy_queue t.id w.outside ≡ (returned tt, w'.outside)) in
      let Broken = λ (_ : Unit {0}) (w' : World O).
        Same w'
        × (o : O) × (s.destroy_queue t.id w.outside ≡ (returned tt, o))
        × (s.destroy_breaker t.id o ≡ (returned tt, w'.outside)) in
      let queue = lift (s.destroy_queue t.id) in
      let breaker = lift (s.destroy_breaker t.id) in
      let driven = lift s.active_driver >>= λ driver. lift (driver.destroy_tenant t) in
      Ends-bind Broken TornDown Halted (queue >> breaker) (λ _. driven) w
        (Ends-bind Emptied Broken Halted queue (λ _. breaker) w
          (done-Ends (s.destroy_queue t.id) w start)
          (λ _ v (same, emptied).
            Ends-weaken (breaker v) (done-Ends (s.destroy_breaker t.id) v same)
              (λ _ u (kept, broken). (kept, v.outside, emptied, broken)) (λ e u halted. halted)))
        (λ _ v (same, o, emptied, broken).
          Ends-bind
            (λ driver u. Same u × (s.active_driver v.outside ≡ (returned driver, u.outside)))
            TornDown Halted (lift s.active_driver) (λ driver. lift (driver.destroy_tenant t)) v
            (done-Ends s.active_driver v same)
            (λ driver u (at, active).
              Ends-weaken (lift (driver.destroy_tenant t) u)
                (done-Ends (driver.destroy_tenant t) u at)
                (λ _ x (unchanged, returns). (
                  unchanged,
                  (
                    driver, w.outside, o, v.outside, u.outside, x.outside, hooked, emptied, broken,
                    active, returns,
                  ),
                ))
                (λ e x halted. halted)))

  mark_deleted-Ends :
      (w : World O)
      → TornDown tt w
      → Ends (λ gone w'. IsRemoved w'.rows) Halted (mark_deleted s t w)
  mark_deleted-Ends w (same, destroyed) =
      let at = s.now w.outside in
      Ends-bind (λ _ w'. IsRemoved w'.rows) (λ gone w'. IsRemoved w'.rows) Halted
        (save s (deleted_from at)) (λ _. pure (deleted_from at)) w
        (Ends-weaken (save s (deleted_from at) w)
          (save-Ends s (λ r. r ≡ origin.rows) (deleted_from at) w same)
          (λ _ v (stored, _). (at, stored, destroyed)) (λ e v (unchanged, _). inl unchanged))
        (λ _ v gone. gone)

  finish_uninstall-Ends :
      (gone : Tenant) (w : World O)
      → IsRemoved w.rows
      → Ends (λ _ w'. IsRemoved w'.rows) Halted (finish_uninstall s gone w)
  finish_uninstall-Ends gone w removed =
      let hooks = run s.log_failure after destroy (of_tenant gone) s.hooks in
      Ends-bind (λ _ w'. IsRemoved w'.rows) (λ _ w'. IsRemoved w'.rows) Halted (lift hooks)
        (λ _. lift (s.dispatch (tenant_deleted gone))) w (call_behind-Ends hooks w removed)
        (λ _ v at. call_behind-Ends (s.dispatch (tenant_deleted gone)) v at)

  uninstall_found-Ends :
      (w : World O)
      → w.rows ≡ origin.rows
      → w.outside ≡ origin.outside
      → Ends
          (λ _ w'. IsRemoved w'.rows)
          Halted
          ((hook_run s before destroy (of_tenant t)
              >> tear_down s t
              >> (mark_deleted s t >>= finish_uninstall s))
            w)
  uninstall_found-Ends w start outside =
      let run_before = run s.log_failure before destroy (of_tenant t) s.hooks in
      let Hooked = λ (_ : Unit {0}) (w' : World O).
        (w'.rows ≡ origin.rows) × (run_before w.outside ≡ (returned tt, w'.outside)) in
      let hooks = hook_run s before destroy (of_tenant t) in
      let Removed = λ (_ : Unit {0}) (w' : World O). IsRemoved w'.rows in
      Ends-bind TornDown Removed Halted (hooks >> tear_down s t)
        (λ _. mark_deleted s t >>= finish_uninstall s) w
        (Ends-bind Hooked TornDown Halted hooks (λ _. tear_down s t) w
          (done-Ends run_before w start)
          (λ _ v (same, hooked). tear_down-Ends v same (ap run_before (sym outside) ∙ hooked)))
        (λ _ v torn.
          Ends-bind (λ _ u. IsRemoved u.rows) Removed Halted (mark_deleted s t) (finish_uninstall s)
            v (mark_deleted-Ends v torn) (λ gone u removed. finish_uninstall-Ends gone u removed))

module _ {O E Meta Copied : Type 0} (s : Services O E Meta Copied) where
  -- The job that uninstalls a tenant marks it as deleted only behind the active driver's destruction
  -- of what it keeps of it, behind the hooks before it, the queue and the breaker: a job that returns
  -- has done both, and a job that throws has either left the rows as they were or done both.
  pub execute_uninstall-Removed :
      (id : Text) (t : Tenant) (w : World O)
      → find_by_id_or_fail id true w.rows ≡ returned t
      → Ends
          (λ _ w'. IsRemoved s w t w'.rows)
          (λ _ w'. RemovedOrSame s w t w'.rows)
          (execute_uninstall s id w)
  unfolding execute_uninstall
  execute_uninstall-Removed id t w there =
      let job = λ (t : Tenant).
        hook_run s before destroy (of_tenant t)
        >> tear_down s t
        >> (mark_deleted s t >>= finish_uninstall s) in
      subst
        (λ o.
          Ends (λ _ w'. IsRemoved s w t w'.rows) (λ _ w'. RemovedOrSame s w t w'.rows)
            ((found {O = O} {E = E} o >>= job) w))
        (sym there) (uninstall_found-Ends s w t w refl refl)
