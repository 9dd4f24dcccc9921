-- ===== src/Lifecycle/Admin/Destroying.antt =====
-- In which state `destroy` of src/admin/admin_controller.ts leaves a tenant.
use adonisjs_lasagna_multite.Prelude.{
  ℕ, ◌≡◌, ◌⊎◌, inl, inr, refl, sym, ap, ◌∙◌, subst, Bool, true, false, not, none, some, Text,
  list_eq,
}
use adonisjs_lasagna_multite.Prelude.Maps.{lookup}
use adonisjs_lasagna_multite.Prelude.Effects.{
  returned, Effect, pure, ◌>>◌, Ends, Ends-weaken, Ends-bind,
}
use adonisjs_lasagna_multite.Lifecycle.Hooks.{run, before, after, destroy}
use adonisjs_lasagna_multite.Lifecycle.Repository.{Tenant, Repository, find_by_id, unless_deleted}
use adonisjs_lasagna_multite.Lifecycle.Jobs.{
  World, JobError, of_tenant, tenant_deleted, Driver, Services, lift, save,
}
use adonisjs_lasagna_multite.Lifecycle.Jobs.Rows.{lift-Ends, save-Ends, Stored}
use adonisjs_lasagna_multite.Lifecycle.Admin.{
  Response, not_found, destroyed, Dispatches, or_not_found, mark_deleted, drop_unless,
  finish_destroy, destroy_found, destroy_by_id,
}

module _ {O E Meta Copied : Type 0} (s : Services O E Meta Copied) (calls : Dispatches O E)
    (origin : World O) (t : Tenant) where
  abbrev pub deleted_from : ℕ → Tenant
  deleted_from at = record t { deleted_at = some at }

  -- The row says that the tenant is deleted.
  abbrev pub IsMarked : Repository → Type 0
  IsMarked r = (at : ℕ) × Stored (deleted_from at) r

  -- From the start of the request on, the hooks before it return, the row is written, the driver that
  -- is active then is there, and it destroys the data.
  abbrev pub Destroyed : ℕ → Type 0
  Destroyed at =
      (driver : Driver O E) × (o₁ o₂ o₃ o₄ : O) × (run s.log_failure before destroy (of_tenant t)
          s.hooks origin.outside
        ≡ (returned tt, o₁))
      × (s.write_row (deleted_from at) o₁ ≡ (returned tt, o₂))
      × (s.active_driver o₂ ≡ (returned driver, o₃))
      × (driver.destroy_tenant (deleted_from at) o₃ ≡ (returned tt, o₄))

  -- The row says so, and the data is gone unless it was to be kept.
  abbrev pub IsDone : Bool → Repository → Type 0
  IsDone keep_schema r =
      (at : ℕ) × Stored (deleted_from at) r × ((keep_schema ≡ true) ⊎ Destroyed at)

  abbrev Halted : JobError E → World O → Type 0
  Halted _ w' = (w'.rows ≡ origin.rows) ⊎ IsMarked w'.rows

  marked_call-Ends :
      {A : Type 0} (R : Repository → Type 0) (call : Effect O E A) (w : World O)
      → ((r : Repository) → R r → IsMarked r)
      → R w.rows
      → Ends (λ _ w'. R w'.rows) Halted (lift {E = E} call w)
  marked_call-Ends R call w marked h =
      Ends-weaken (lift call w) (lift-Ends R call w h) (λ a v kept. kept.0)
        (λ e v kept. inr (marked v.rows kept))

  -- What has gone before, when the row has been written.
  abbrev Written : ℕ → O → Type 0
  Written at o =
      (o₁ : O) × (run s.log_failure before destroy (of_tenant t) s.hooks origin.outside
        ≡ (returned tt, o₁))
      × (s.write_row (deleted_from at) o₁ ≡ (returned tt, o))

  drop_unless-Ends :
      (keep_schema : Bool) (at : ℕ) (w : World O)
      → Stored (deleted_from at) w.rows
      → Written at w.outside
      → Ends
          (λ _ w'. IsDone keep_schema w'.rows)
          Halted
          (drop_unless s calls keep_schema (deleted_from at) w)
  drop_unless-Ends true at w h written = (at, h, inl refl)
  drop_unless-Ends false at w h (o₁, hooked, written) =
      let Active = λ (driver : Driver O E) (v : World O).
        Stored (deleted_from at) v.rows
        × (s.active_driver w.outside ≡ (returned driver, v.outside)) in
      Ends-bind Active (λ _ w'. IsDone false w'.rows) Halted (lift s.active_driver)
        (λ driver. lift (driver.destroy_tenant (deleted_from at))) w
        (Ends-weaken (lift s.active_driver w)
          (lift-Ends (Stored (deleted_from at)) s.active_driver w h) (λ driver v active. active)
          (λ e v kept. inr (at, kept)))
        (λ driver v (stored, active).
          Ends-weaken (lift (driver.destroy_tenant (deleted_from at)) v)
            (lift-Ends (Stored (deleted_from at)) (driver.destroy_tenant (deleted_from at)) v
              stored)
            (λ _ x (kept, returns). (
              at,
              kept,
              inr (driver, o₁, w.outside, v.outside, x.outside, hooked, written, active, returns),
            ))
            (λ e x kept. inr (at, kept)))

  IsDone-IsMarked : (keep_schema : Bool) (r : Repository) → IsDone keep_schema r → IsMarked r
  IsDone-IsMarked keep_schema r (at, stored, _) = (at, stored)

  finish_destroy-Ends :
      (keep_schema : Bool) (at : ℕ) (w : World O)
      → Stored (deleted_from at) w.rows
      → Written at w.outside
      → Ends
          (λ _ w'. IsDone keep_schema w'.rows)
          Halted
          (finish_destroy s calls keep_schema (deleted_from at) w)
  finish_destroy-Ends keep_schema at w h written =
      let Done = λ (w' : World O). IsDone keep_schema w'.rows in
      let gone = deleted_from at in
      let hooks = run s.log_failure after destroy (of_tenant gone) s.hooks in
      let dropped = drop_unless s calls keep_schema gone in
      let event = lift (s.dispatch (tenant_deleted gone)) in
      Ends-bind (λ _ w'. Done w') (λ (_ : Response) w'. Done w') Halted
        (dropped >> lift hooks >> event) (λ _. pure (destroyed gone (not keep_schema))) w
        (Ends-bind (λ _ w'. Done w') (λ _ w'. Done w') Halted (dropped >> lift hooks) (λ _. event) w
          (Ends-bind (λ _ w'. Done w') (λ _ w'. Done w') Halted dropped (λ _. lift hooks) w
            (drop_unless-Ends keep_schema at w h written)
            (λ _ v done.
              marked_call-Ends (IsDone keep_schema) hooks v (IsDone-IsMarked keep_schema) done))
          (λ _ v done.
            marked_call-Ends (IsDone keep_schema) (s.dispatch (tenant_deleted gone)) v
              (IsDone-IsMarked keep_schema) done))
        (λ _ v done. done)

  abbrev Gone : Tenant → World O → Type 0
  Gone gone w =
      (at : ℕ) × (gone ≡ deleted_from at) × Stored (deleted_from at) w.rows × Written at w.outside

  mark_deleted-Ends :
      (w : World O)
      → w.rows ≡ origin.rows
      → run s.log_failure before destroy (of_tenant t) s.hooks origin.outside
        ≡ (returned tt, w.outside)
      → Ends Gone Halted (mark_deleted s calls t w)
  mark_deleted-Ends w same hooked =
      let at = s.now w.outside in
      Ends-bind (λ _ w'. Stored (deleted_from at) w'.rows × Written at w'.outside) Gone Halted
        (save s (deleted_from at)) (λ _. pure (deleted_from at)) w
        (Ends-weaken (save s (deleted_from at) w)
          (save-Ends s (λ r. r ≡ origin.rows) (deleted_from at) w same)
          (λ _ v (stored, written). (stored, (w.outside, hooked, written)))
          (λ e v (unwritten, _). inl unwritten))
        (λ _ v (stored, written). (at, refl, stored, written))

  destroy_found-Ends :
      (keep_schema : Bool) (w : World O)
      → w.rows ≡ origin.rows
      → w.outside ≡ origin.outside
      → Ends (λ _ w'. IsDone keep_schema w'.rows) Halted (destroy_found s calls keep_schema t w)
  destroy_found-Ends keep_schema w same outside =
      let hooks = run s.log_failure before destroy (of_tenant t) s.hooks in
      Ends-bind Gone (λ _ w'. IsDone keep_schema w'.rows) Halted
        (lift hooks >> mark_deleted s calls t) (finish_destroy s calls keep_schema) w
        (Ends-bind (λ _ w'. (w'.rows ≡ origin.rows) × (hooks w.outside ≡ (returned tt, w'.outside)))
          Gone Halted (lift hooks) (λ _. mark_deleted s calls t) w
          (Ends-weaken (lift hooks w) (lift-Ends (λ r. r ≡ origin.rows) hooks w same)
            (λ _ v kept. kept) (λ e v kept. inl kept))
          (λ _ v (kept, hooked). mark_deleted-Ends v kept (ap hooks (sym outside) ∙ hooked)))
        (λ gone v (at, e, stored, written).
          subst
            (λ g.
              Ends (λ _ w'. IsDone keep_schema w'.rows) Halted
                (finish_destroy s calls keep_schema g v))
            (sym e) (finish_destroy-Ends keep_schema at v stored written))

  -- A tenant that is marked is not found again without its deleted ones.
  IsMarked-hidden :
      (id : Text) (r : Repository) → t.id ≡ id → IsMarked r → find_by_id id false r ≡ none
  unfolding find_by_id
  IsMarked-hidden id r own (at, stored) =
      ap (unless_deleted false) (ap (λ i. lookup i r) (sym own) ∙ stored)

module _ {O E Meta Copied : Type 0} (s : Services O E Meta Copied) (calls : Dispatches O E) where
  -- The destruction of a tenant through the admin API: where it answers, the row is marked as deleted
  -- and, unless the schema is kept, the driver that is active behind that has destroyed the data. Where it throws, either the rows
  -- are as they were, or the row is marked although nothing may have been destroyed, and then the
  -- same request, repeated, finds no tenant and does nothing.
  pub destroy_by_id-Marked :
      (id : Text) (t : Tenant) (keep_schema : Bool) (w : World O)
      → find_by_id id false w.rows ≡ some t
      → t.id ≡ id
      → Ends
          (λ _ w'. IsDone s calls w t keep_schema w'.rows)
          (λ _ w'.
            (w'.rows ≡ w.rows)
            ⊎ (IsMarked s calls w t w'.rows
                × (destroy_by_id s calls id keep_schema w' ≡ (returned not_found, w'))))
          (destroy_by_id s calls id keep_schema w)
  unfolding destroy_by_id
  destroy_by_id-Marked id t keep_schema w there own =
      let handler = destroy_found s calls keep_schema in
      subst
        (λ o.
          Ends (λ _ w'. IsDone s calls w t keep_schema w'.rows)
            (λ _ w'.
              (w'.rows ≡ w.rows)
              ⊎ (IsMarked s calls w t w'.rows
                  × (destroy_by_id s calls id keep_schema w' ≡ (returned not_found, w'))))
            (or_not_found handler o w))
        (sym there)
        (Ends-weaken (destroy_found s calls keep_schema t w)
          (destroy_found-Ends s calls w t keep_schema w refl refl) (λ response v done. done)
          (λ e v halted. elim halted [
            | inl same ↦ inl same
            | inr marked ↦ inr (
              marked,
              ap (λ o. or_not_found handler o v) (IsMarked-hidden s calls w t id v.rows own marked),
            )
          ]))
