-- ===== src/Resolving/Universal/Degrading.antt =====
-- When `UniversalMiddleware` (src/middleware/universal_middleware.ts) runs a request with a tenant.
use adonisjs_lasagna_multite.Prelude.{
  ◌≡◌, ◌⊎◌, refl, sym, ap, ◌∙◌, inl, inr, Bool, true, false, ◌||◌, Option, none, some, arith,
  Bool-cases,
}
use adonisjs_lasagna_multite.Prelude.Effects.{Outcome, returned, thrown, Effect}
use adonisjs_lasagna_multite.Tenancy.Context.{with_store}
use adonisjs_lasagna_multite.Resolving.Builtins.{Hit}
use adonisjs_lasagna_multite.Resolving.Guard.{TenantView}
use adonisjs_lasagna_multite.Resolving.Universal.{
  resolver_failed, repository_lookup_failed, driver_connect_failed, Requested, Services, memoized,
  connected, connect_ready, looked_up, look_up, made_repository, resolved, try_resolve, run_next,
  handle_universal,
}

-- A tenant that may be served.
abbrev pub IsReady : TenantView → Type 0
IsReady t =
    (t.is_suspended ≡ false)
    × (t.is_deleted ≡ false)
    × (t.is_provisioning ≡ false)
    × (t.is_failed ≡ false)

module _ {W E : Type 0} (s : Services (Requested W) E) where
  -- Every step of the resolution from `w` succeeds, finds the tenant and ends in `w'`.
  abbrev pub Resolves : Requested W → TenantView → Requested W → Type 0
  Resolves w t w' =
      (hit : Hit) × (w₁ w₂ w₃ w₄ : Requested W) × (s.resolve_tenant w ≡ (returned (some hit), w₁))
      × (s.make_repository w₁ ≡ (returned true, w₂))
      × (look_up s hit w₂ ≡ (returned (some t), w₃))
      × IsReady t
      × (s.connect t w₃ ≡ (returned tt, w₄))
      × (w' ≡ memoized s t w₄)

  -- A step of the resolution from `w` finds nothing or fails, and leaves `w'`: nothing behind it has
  -- run, and a failure that is reported has been.
  pub data Degrades (w w' : Requested W) : Type 0 where
    unresolved : s.resolve_tenant w ≡ (returned none, w') → Degrades w w'
    resolver_threw :
        (e : E) (w₁ : Requested W)
        → s.resolve_tenant w ≡ (thrown e, w₁)
        → w' ≡ s.warn resolver_failed e w₁
        → Degrades w w'
    no_repository :
        (hit : Hit) (w₁ : Requested W)
        → s.resolve_tenant w ≡ (returned (some hit), w₁)
        → s.make_repository w₁ ≡ (returned false, w')
        → Degrades w w'
    repository_threw :
        (hit : Hit) (w₁ : Requested W) (e : E)
        → s.resolve_tenant w ≡ (returned (some hit), w₁)
        → s.make_repository w₁ ≡ (thrown e, w')
        → Degrades w w'
    unknown :
        (hit : Hit) (w₁ w₂ : Requested W)
        → s.resolve_tenant w ≡ (returned (some hit), w₁)
        → s.make_repository w₁ ≡ (returned true, w₂)
        → look_up s hit w₂ ≡ (returned none, w')
        → Degrades w w'
    lookup_threw :
        (hit : Hit) (w₁ w₂ w₃ : Requested W) (e : E)
        → s.resolve_tenant w ≡ (returned (some hit), w₁)
        → s.make_repository w₁ ≡ (returned true, w₂)
        → look_up s hit w₂ ≡ (thrown e, w₃)
        → w' ≡ s.warn repository_lookup_failed e w₃
        → Degrades w w'
    unready :
        (hit : Hit) (w₁ w₂ : Requested W) (t : TenantView)
        → s.resolve_tenant w ≡ (returned (some hit), w₁)
        → s.make_repository w₁ ≡ (returned true, w₂)
        → look_up s hit w₂ ≡ (returned (some t), w')
        → ¬ IsReady t
        → Degrades w w'
    connect_threw :
        (hit : Hit) (w₁ w₂ w₃ w₄ : Requested W) (t : TenantView) (e : E)
        → s.resolve_tenant w ≡ (returned (some hit), w₁)
        → s.make_repository w₁ ≡ (returned true, w₂)
        → look_up s hit w₂ ≡ (returned (some t), w₃)
        → s.connect t w₃ ≡ (thrown e, w₄)
        → w' ≡ s.warn driver_connect_failed e w₄
        → Degrades w w'

  abbrev Tried : Requested W → Option TenantView × Requested W → Type 0
  Tried w (none, w') = Degrades w w'
  Tried w (some t, w') = Resolves w t w'

  connected-Tried :
      (w w₁ w₂ w₃ : Requested W) (hit : Hit) (t : TenantView)
      (result : Outcome E (Unit {0}) × Requested W)
      → s.resolve_tenant w ≡ (returned (some hit), w₁)
      → s.make_repository w₁ ≡ (returned true, w₂)
      → look_up s hit w₂ ≡ (returned (some t), w₃)
      → IsReady t
      → s.connect t w₃ ≡ result
      → Tried w (connected s t result)
  connected-Tried w w₁ w₂ w₃ hit t (returned _, w₄) a b c ready d =
      (hit, w₁, w₂, w₃, w₄, a, b, c, ready, d, refl)
  connected-Tried w w₁ w₂ w₃ hit t (thrown e, w₄) a b c ready d =
      connect_threw hit w₁ w₂ w₃ w₄ t e a b c d refl

  ready-Tried :
      (w w₁ w₂ w₃ : Requested W) (hit : Hit) (t : TenantView)
      → s.resolve_tenant w ≡ (returned (some hit), w₁)
      → s.make_repository w₁ ≡ (returned true, w₂)
      → look_up s hit w₂ ≡ (returned (some t), w₃)
      → Tried w (connect_ready s t w₃)
  ready-Tried w w₁ w₂ w₃ hit t a b c =
      elim (Bool-cases (t.is_suspended || t.is_deleted)) as (λ _. Tried w (connect_ready s t w₃)) [
        | inl refused ↦
            rw refused (unready hit w₁ w₂ t a b c (λ (x, y, _, _). ground (arith, x, y)))
        | inr kept ↦
            elim (Bool-cases (t.is_provisioning || t.is_failed))
              as (λ _. Tried w (connect_ready s t w₃)) [
                | inl early ↦
                    rw (kept, early)
                      (unready hit w₁ w₂ t a b c (λ (_, _, x, y). ground (arith, x, y)))
                | inr ready ↦
                    rw (kept, ready)
                      (connected-Tried w w₁ w₂ w₃ hit t (s.connect t w₃) a b c
                        (ground arith, ground arith, ground arith, ground arith) refl)
              ]
      ]

  looked_up-Tried :
      (w w₁ w₂ : Requested W) (hit : Hit) (result : Outcome E (Option TenantView) × Requested W)
      → s.resolve_tenant w ≡ (returned (some hit), w₁)
      → s.make_repository w₁ ≡ (returned true, w₂)
      → look_up s hit w₂ ≡ result
      → Tried w (looked_up s result)
  looked_up-Tried w w₁ w₂ hit (returned none, w₃) a b c = unknown hit w₁ w₂ a b c
  looked_up-Tried w w₁ w₂ hit (returned (some t), w₃) a b c = ready-Tried w w₁ w₂ w₃ hit t a b c
  looked_up-Tried w w₁ w₂ hit (thrown e, w₃) a b c = lookup_threw hit w₁ w₂ w₃ e a b c refl

  made_repository-Tried :
      (w w₁ : Requested W) (hit : Hit) (result : Outcome E Bool × Requested W)
      → s.resolve_tenant w ≡ (returned (some hit), w₁)
      → s.make_repository w₁ ≡ result
      → Tried w (made_repository s hit result)
  made_repository-Tried w w₁ hit (returned true, w₂) a b =
      looked_up-Tried w w₁ w₂ hit (look_up s hit w₂) a b refl
  made_repository-Tried w w₁ hit (returned false, w₂) a b = no_repository hit w₁ a b
  made_repository-Tried w w₁ hit (thrown e, w₂) a b = repository_threw hit w₁ e a b

  resolved-Tried :
      (w : Requested W) (result : Outcome E (Option Hit) × Requested W)
      → s.resolve_tenant w ≡ result
      → Tried w (resolved s result)
  resolved-Tried w (returned none, w₁) a = unresolved a
  resolved-Tried w (returned (some hit), w₁) a =
      made_repository-Tried w w₁ hit (s.make_repository w₁) a refl
  resolved-Tried w (thrown e, w₁) a = resolver_threw e w₁ a refl

  try_resolve-Tried : (w : Requested W) → Tried w (try_resolve s w)
  unfolding try_resolve
  try_resolve-Tried w = resolved-Tried w (s.resolve_tenant w) refl

  connect_ready-connected :
      (t : TenantView) (w : Requested W)
      → IsReady t
      → connect_ready s t w ≡ connected s t (s.connect t w)
  connect_ready-connected t w (suspended, deleted, provisioning, failed) =
      let kept : (t.is_suspended || t.is_deleted) ≡ false = ground arith in
      let ready : (t.is_provisioning || t.is_failed) ≡ false = ground arith in simp (kept, ready)

  -- A resolution that succeeds is what `#tryResolve` gives.
  try_resolve-Resolves :
      (w w' : Requested W) (t : TenantView) → Resolves w t w' → try_resolve s w ≡ (some t, w')
  unfolding try_resolve
  try_resolve-Resolves w w' t
        (hit, w₁, w₂, w₃, w₄, a, b, c, (suspended, deleted, provisioning, failed), d, e) =
      ap (resolved s) a
      ∙ ap (made_repository s hit) b
      ∙ ap (looked_up s) c
      ∙ connect_ready-connected t w₃ (suspended, deleted, provisioning, failed)
      ∙ ap (connected s t) d
      ∙ ap (λ v. (some t, v)) (sym e)

  module _ {T : Type 0} (next : Effect (Requested W) E T) (w : Requested W) where
    run_next-either :
        (tried : Option TenantView × Requested W)
        → Tried w tried
        → ((t : TenantView) × (w' : Requested W) × Resolves w t w'
            × (run_next s next tried ≡ with_store t.id next w'))
          ⊎ ((w' : Requested W) × (run_next s next tried ≡ next w') × Degrades w w')
    run_next-either (none, w') h = inr (w', refl, h)
    run_next-either (some t, w') h = inl (t, w', h, refl)

    -- The middleware never fails by itself. Where the resolvers find a tenant, the repository knows
    -- it, it is neither suspended, deleted, being provisioned nor failed, and its driver connects,
    -- the rest of the request runs with its id in the store and the tenant memoized; in every other
    -- case the rest of the request runs as it is, in the world that the last step before it left:
    -- the one that found nothing or failed, or the warning of its failure, with no tenant memoized
    -- by the middleware.
    pub handle_universal-degrades :
        ((t : TenantView) (w' : Requested W)
          → Resolves w t w'
          → (handle_universal s next w ≡ with_store t.id next w') × (w'.outer.memo ≡ some t))
        × (((t : TenantView) (w' : Requested W) → ¬ Resolves w t w')
            → (w' : Requested W) × (handle_universal s next w ≡ next w') × Degrades w w')
    unfolding handle_universal
    handle_universal-degrades = (
      (λ t w' h. (
        ap (run_next s next) (try_resolve-Resolves w w' t h),
        let (_, _, _, _, _, _, _, _, _, _, e) = h in ap (λ v. v.outer.memo) e,
      )),
      (λ unresolved. elim (run_next-either (try_resolve s w) (try_resolve-Tried w)) [
        | inl (t, w', h, _) ↦ absurd (unresolved t w' h)
        | inr (w', e, left) ↦ (w', e, left)
      ]),
    )
