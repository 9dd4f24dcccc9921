-- ===== src/Lifecycle/Jobs/Cloning.antt =====
-- In which state src/jobs/clone_tenant.ts and src/services/clone_service.ts leave the tenants.
use adonisjs_lasagna_multite.Prelude.{
  ◌≡◌, inl, inr, refl, sym, ap, ◌∙◌, subst, Bool, false, none, some, Text, list_eq,
}
use adonisjs_lasagna_multite.Prelude.Effects.{
  Outcome, returned, Effect, ◌>>=◌, ◌>>◌, Ends, Ends-bind,
}
use adonisjs_lasagna_multite.Lifecycle.Hooks.{run, before, after, clone}
use adonisjs_lasagna_multite.Lifecycle.Repository.{
  Tenant, active, Repository, NotFound, find_by_id_or_fail,
}
use adonisjs_lasagna_multite.Lifecycle.Jobs.{
  World, JobError, of_clone, tenant_cloned, Services, lift, found, find, hook_run, with_status,
  clone_or_fail, clone_tenant, finish_clone, execute_clone,
}
use adonisjs_lasagna_multite.Lifecycle.Jobs.CloneSteps.{
  IsCloned, CloneHaltedAt, Halted, call-Ends, keep-Ends, clone_or_fail-Ends,
}

module _ {O E Meta Copied : Type 0} (s : Services O E Meta Copied) where
  module _ (origin : World O) (source destination : Tenant)
      (schema_only clear_sessions : Bool) where
    abbrev IsDone : World O → Type 0
    IsDone v = IsCloned s origin source destination schema_only clear_sessions v.rows

    abbrev Late : JobError E → World O → Type 0
    Late = Halted s origin source destination schema_only clear_sessions

    behind-Ends :
        {A : Type 0} (call : Effect O E A) (w : World O)
        → IsDone w
        → Ends (λ _ v. IsDone v) Late (lift {E = E} call w)
    behind-Ends call w done =
        keep-Ends s origin source destination schema_only clear_sessions
          (IsCloned s origin source destination schema_only clear_sessions) Late call w
          (λ _ v kept. inr (inr kept)) done

    finish_clone-Ends :
        (copied : Copied) (w : World O)
        → IsDone w
        → Ends (λ _ v. IsDone v) Late (finish_clone s source destination copied w)
    finish_clone-Ends copied w done =
        let gone = of_clone source (with_status s active destination) (some copied) in
        let hooks = run s.log_failure after clone gone s.hooks in
        let Done = λ (_ : Unit {0}) (v : World O). IsDone v in
        let queue = s.open_queue destination.id in
        let event = s.dispatch (tenant_cloned source (with_status s active destination) copied) in
        Ends-bind Done Done Late (lift queue >> lift hooks) (λ _. lift event) w
          (Ends-bind Done Done Late (lift queue) (λ _. lift hooks) w (behind-Ends queue w done)
            (λ _ v at. behind-Ends hooks v at))
          (λ _ v at. behind-Ends event v at)

    clone_found-Ends :
        (w : World O)
        → w.rows ≡ origin.rows
        → w.outside ≡ origin.outside
        → Ends
            (λ _ v. IsDone v)
            Late
            ((hook_run s before clone (of_clone source destination none)
                >> (clone_tenant s source destination schema_only clear_sessions >>= λ copied.
                    finish_clone s source destination copied))
              w)
    clone_found-Ends w same outside =
        let R = λ (r : Repository). r ≡ origin.rows in
        let run_before =
          run s.log_failure before clone (of_clone source destination none) s.hooks in
        let cloned = clone_tenant s source destination schema_only clear_sessions in
        Ends-bind
          (λ _ v. (v.rows ≡ origin.rows) × (run_before w.outside ≡ (returned tt, v.outside)))
          (λ _ v. IsDone v) Late (lift run_before)
          (λ _. cloned >>= λ copied. finish_clone s source destination copied) w
          (call-Ends s origin source destination schema_only clear_sessions R Late run_before w
            (λ _ v kept. inl kept) same)
          (λ _ v (at, hooked).
            Ends-bind (λ _ u. IsDone u) (λ _ u. IsDone u) Late cloned
              (λ copied. finish_clone s source destination copied) v
              (Ends-bind
                (λ driver u.
                  (u.rows ≡ origin.rows)
                  × (s.active_driver v.outside ≡ (returned driver, u.outside)))
                (λ _ u. IsDone u) Late (lift s.active_driver)
                (λ driver. clone_or_fail s driver source destination schema_only clear_sessions) v
                (call-Ends s origin source destination schema_only clear_sessions R Late
                  s.active_driver v (λ _ u kept. inl kept) at)
                (λ driver u (kept, driven).
                  clone_or_fail-Ends s origin source destination schema_only clear_sessions driver u
                    kept (v.outside, ap run_before (sym outside) ∙ hooked, driven)))
              (λ copied u done. finish_clone-Ends copied u done))

  -- The job that clones a tenant writes no row but that of the destination. Where it returns, the
  -- destination is active, and behind the hooks the active driver has provisioned and migrated it
  -- and the data has been copied, unless only the schema was to be cloned. Where it throws, the rows
  -- are as they were, or the destination is failed, or it is active and all of that has been done.
  pub execute_clone-Cloned :
      (source_id destination_id : Text) (source destination : Tenant)
      (schema_only clear_sessions : Bool) (w : World O)
      → find_by_id_or_fail source_id false w.rows ≡ returned source
      → find_by_id_or_fail destination_id false w.rows ≡ returned destination
      → Ends
          (λ _ v. IsCloned s w source destination schema_only clear_sessions v.rows)
          (λ _ v. CloneHaltedAt s w source destination schema_only clear_sessions v.rows)
          (execute_clone s source_id destination_id schema_only clear_sessions w)
  unfolding execute_clone
  execute_clone-Cloned source_id destination_id source destination schema_only clear_sessions w
        there other =
      let Good =
        Ends (λ (_ : Unit {0}) v. IsCloned s w source destination schema_only clear_sessions v.rows)
          (λ (_ : JobError E) v.
            CloneHaltedAt s w source destination schema_only clear_sessions v.rows) in
      let job = λ (a b : Tenant).
        hook_run s before clone (of_clone a b none)
        >> (clone_tenant s a b schema_only clear_sessions >>= λ copied.
            finish_clone s a b copied) in
      let with_source = λ (o : Outcome NotFound Tenant).
        (found {O = O} {E = E} o >>= λ a. find destination_id false >>= λ b. job a b) w in
      let with_both =
        λ (o : Outcome NotFound Tenant). (found {O = O} {E = E} o >>= λ b. job source b) w in
      subst Good (sym (ap with_source there ∙ ap with_both other))
        (clone_found-Ends w source destination schema_only clear_sessions w refl refl)
