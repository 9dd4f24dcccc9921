-- ===== src/Lifecycle/Jobs/Rows.antt =====
-- What the calls of the jobs of src/jobs do to the rows of the tenants.
use adonisjs_lasagna_multite.Prelude.{◌≡◌, refl, ◌∙◌, true, some, list_eq, beq_refl, ◌==◌}
use adonisjs_lasagna_multite.Prelude.Maps.{lookup, insert, lookup-insert}
use adonisjs_lasagna_multite.Prelude.Effects.{Outcome, returned, thrown, Effect, Ends}
use adonisjs_lasagna_multite.Lifecycle.Repository.{Tenant, Repository}
use adonisjs_lasagna_multite.Lifecycle.Jobs.{World, JobError, Services, relay, lift, written, save}

module _ {O E A : Type 0} (R : Repository → Type 0) (call : Effect O E A) where
  -- A call on the rest of the world leaves the rows as they are; where it returns, it is what has
  -- changed the rest.
  pub lift-Ends :
      (w : World O)
      → R w.rows
      → Ends {E = JobError E}
          (λ a w'. R w'.rows × (call w.outside ≡ (returned a, w'.outside)))
          (λ e w'. R w'.rows)
          (lift call w)
  lift-Ends w h = lifted (call w.outside) refl
    where
      lifted :
          (r : Outcome E A × O)
          → call w.outside ≡ r
          → Ends {E = JobError E}
              (λ a w'. R w'.rows × (call w.outside ≡ (returned a, w'.outside)))
              (λ e w'. R w'.rows)
              (relay w.rows r)
      lifted (returned a, o) e = (h, e)
      lifted (thrown x, o) e = h

lookup-insert_same : (t : Tenant) (r : Repository) → lookup t.id (insert t.id t r) ≡ some t
lookup-insert_same t r =
    let same : (t.id == t.id) ≡ true = beq_refl t.id in lookup-insert t.id t.id t r ∙ rw same refl

-- The row of a tenant.
abbrev pub Stored : Tenant → Repository → Type 0
Stored t rows = lookup t.id rows ≡ some t

module _ {O E Meta Copied : Type 0} (s : Services O E Meta Copied) where
  abbrev pub FailsToWrite : Tenant → Type 0
  FailsToWrite t = (o o' : O) × (e : E) × (s.write_row t o ≡ (thrown e, o'))

  pub save-Ends :
      (R : Repository → Type 0) (t : Tenant) (w : World O)
      → R w.rows
      → Ends
          (λ _ w'. Stored t w'.rows × (s.write_row t w.outside ≡ (returned tt, w'.outside)))
          (λ _ w'. R w'.rows × FailsToWrite t)
          (save s t w)
  save-Ends R t w h = saved (s.write_row t w.outside) refl
    where
      saved :
          (r : Outcome E (Unit {0}) × O)
          → s.write_row t w.outside ≡ r
          → Ends
              (λ _ w'. Stored t w'.rows × (s.write_row t w.outside ≡ (returned tt, w'.outside)))
              (λ _ w'. R w'.rows × FailsToWrite t)
              (written s t w.rows r)
      saved (returned _, o) e = (lookup-insert_same t w.rows, e)
      saved (thrown x, o) e = (h, (w.outside, o, x, e))
