-- ===== src/Resolving/Macro/Memo.antt =====
-- The memo of `request.tenant()` (src/extensions/request.ts).
use adonisjs_lasagna_multite.Prelude.{
  ◌≡◌, refl, ap, subst, ◌∙◌, true, Option, none, some, Bool-cases, inl, inr,
}
use adonisjs_lasagna_multite.Prelude.Effects.{Outcome, returned, thrown, Effect, ◌>>=◌}
use adonisjs_lasagna_multite.Isolation.Identifier.{is_uuid_v4}
use adonisjs_lasagna_multite.Resolving.Builtins.{Hit, id, domain}
use adonisjs_lasagna_multite.Resolving.Macro.{
  Services, TenantError, RequestWorld, relay, outside, find_tenant, memoize, connect_found,
  tenant_or, tenant,
}

module _ {W E T : Type 0} where
  -- The memo after the macro holds what it returned; a throw leaves it as it was.
  abbrev pub Memoized : Option T → Outcome (TenantError E) T × RequestWorld W T → Type 0
  Memoized before (returned t, w) = w.memo ≡ some t
  Memoized before (thrown e, w) = w.memo ≡ before

  -- A call that leaves the memo alone.
  abbrev Spares : {A : Type 0} → Effect (RequestWorld W T) (TenantError E) A → Type 0
  Spares call = (w : RequestWorld W T) → (call w).1.memo ≡ w.memo

  relay-memo :
      {A : Type 0} (w : RequestWorld W T) (r : Outcome E A × W) → (relay w r).1.memo ≡ w.memo
  relay-memo w (returned a, outer) = refl
  relay-memo w (thrown e, outer) = refl

  find_tenant-Spares : (s : Services W E T) (hit : Option Hit) → Spares (find_tenant s hit)
  unfolding find_tenant
  find_tenant-Spares s none w = refl
  find_tenant-Spares s (some (id i)) w = elim (Bool-cases (is_uuid_v4 i)) [
    | inl valid ↦ rw valid (relay-memo w (s.find_by_id i true w.outer))
    | inr invalid ↦ rw invalid
  ]
  find_tenant-Spares s (some (domain d)) w = relay-memo w (s.find_by_domain d w.outer)

  -- `>>=` after a call that has given its outcome
  continue-Memoized :
      {A : Type 0} (before : Option T) (f : A → Effect (RequestWorld W T) (TenantError E) T)
      (r : Outcome (TenantError E) A) (w : RequestWorld W T)
      → w.memo ≡ before
      → ((a : A) → r ≡ returned a → Memoized before (f a w))
      → Memoized before (((λ _. (r, w)) >>= f) w)
  continue-Memoized before f (returned a) w e k = k a refl
  continue-Memoized before f (thrown x) w e k = e

  connect_found-Memoized :
      (s : Services W E T) (found : Option T) (w : RequestWorld W T)
      → Memoized w.memo (connect_found s found w)
  unfolding connect_found
  connect_found-Memoized s none w = refl
  connect_found-Memoized s (some t) w =
      let r = outside (s.connect t) w in
      continue-Memoized w.memo (λ _. memoize t) r.0 r.1 (relay-memo w (s.connect t w.outer))
        (λ a e. refl)

  tenant_or-Memoized :
      (s : Services W E T) (memo : Option T) (w : RequestWorld W T)
      → w.memo ≡ memo
      → Memoized memo (tenant_or s memo w)
  tenant_or-Memoized s (some t) w e = e
  tenant_or-Memoized s none w e =
      let r = outside s.resolve_tenant w in
      continue-Memoized none (λ hit. find_tenant s hit >>= connect_found s) r.0 r.1
        (relay-memo w (s.resolve_tenant w.outer) ∙ e)
        (λ hit _.
          let q = find_tenant s hit r.1 in
          let untouched : q.1.memo ≡ none =
            find_tenant-Spares s hit r.1 ∙ relay-memo w (s.resolve_tenant w.outer) ∙ e in
          continue-Memoized none (connect_found s) q.0 q.1 untouched (λ found _.
            subst (λ m. Memoized m (connect_found s found q.1)) untouched
              (connect_found-Memoized s found q.1)))

  -- A call of `request.tenant()` that returns a tenant leaves it in the request's memo, and every
  -- later call returns it again and reaches neither the resolvers nor the repository nor the
  -- driver; a call that throws leaves the memo as it was, so that the next one tries again.
  pub tenant-Memoized :
      (s : Services W E T) (w : RequestWorld W T)
      → Memoized w.memo (tenant s w)
        × ((t : T) (w' : RequestWorld W T)
            → tenant s w ≡ (returned t, w')
            → tenant s w' ≡ (returned t, w'))
  unfolding tenant
  tenant-Memoized s w =
      let memoized = tenant_or-Memoized s w.memo w refl in
      (
        memoized,
        (λ t w' e.
            let kept : w'.memo ≡ some t = subst (Memoized w.memo) e memoized in
            ap (λ m. tenant_or s m w') kept),
      )
