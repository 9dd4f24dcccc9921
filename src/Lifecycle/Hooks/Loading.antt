-- ===== src/Lifecycle/Hooks/Loading.antt =====
-- What `before`, `after` and `loadDeclarative` of src/services/hook_registry.ts leave in the table.
use adonisjs_lasagna_multite.Prelude.{
  ◌≡◌, refl, sym, ◌∙◌, ap, Bool, true, false, Option, none, some, List, [], ◌∷◌, ◌++◌,
  if◌then◌else◌, ◌==◌, list_eq, list_beq_iff, Text, Option-cases, inl, inr,
}
use mathlib.Core.List.{append-nil, append_assoc}
use adonisjs_lasagna_multite.Prelude.Maps.{lookup, insert, lookup-insert}
use adonisjs_lasagna_multite.Lifecycle.Hooks.{
  Phase, before, after, Event, provision, destroy, backup, restore, clone, migrate, hook_key,
  declarative_key, phase_events, Hook, Registry, DeclarativeHooks, hooks_for, register, load_from,
  load_declarative,
}

module _ {ℓ} {A : Type ℓ} where
  append_under :
      (b : Bool) (xs ys : List A) (a : A) (zs : List A)
      → (b ≡ true → xs ≡ ys)
      → (if b then xs ++ a ∷ [] else zs) ≡ (if b then ys ++ a ∷ [] else zs)
  append_under true xs ys a zs same = ap (λ l. l ++ a ∷ []) (same refl)
  append_under false xs ys a zs same = refl

  append_nothing : (b : Bool) (xs : List A) → xs ≡ xs ++ (if b then [] else [])
  append_nothing true xs = sym (append-nil xs)
  append_nothing false xs = sym (append-nil xs)

  append_one :
      (b : Bool) (xs : List A) (a : A)
      → (if b then xs ++ a ∷ [] else xs) ≡ xs ++ (if b then a ∷ [] else [])
  append_one true xs a = refl
  append_one false xs a = sym (append-nil xs)

abbrev pub as_list {ℓ} : {A : Type ℓ} → Option A → List A
as_list none = []
as_list (some a) = a ∷ []

module _ {W E Ctx : Type 0} where
  hooks_for-insert :
      (k : Text) (hooks : List (Hook W E Ctx)) (q : Phase) (f : Event) (r : Registry W E Ctx)
      → hooks_for q f (insert k hooks r) ≡ (if k == hook_key q f then hooks else hooks_for q f r)
  unfolding hooks_for
  hooks_for-insert k hooks q f r =
      rw (lookup-insert k (hook_key q f) hooks r, hooks_for) (split (k == hook_key q f))
    where
      split :
          (b : Bool)
          → elim (if b then some hooks else lookup (hook_key q f) r) [ none ↦ [] | some hs ↦ hs ]
            ≡ (if b then hooks else hooks_for q f r)
      split true = refl
      split false = refl

  register-insert :
      (p : Phase) (e : Event) (hook : Hook W E Ctx) (r : Registry W E Ctx)
      → register p e hook r ≡ insert (hook_key p e) (hooks_for p e r ++ hook ∷ []) r
  unfolding register hooks_for
  register-insert p e hook r = elim (Option-cases (lookup (hook_key p e) r)) [
    | inl missing ↦ rw (missing, register, hooks_for)
    | inr (hooks, found) ↦ rw (found, register, hooks_for)
  ]

  hooks_for-key :
      (p q : Phase) (e f : Event) (r : Registry W E Ctx)
      → hook_key p e ≡ hook_key q f
      → hooks_for p e r ≡ hooks_for q f r
  unfolding hooks_for
  hooks_for-key p q e f r same = ap (λ k. elim (lookup k r) [ none ↦ [] | some hooks ↦ hooks ]) same

  -- A registration appends the hook to those of its own phase and event, and leaves the others.
  pub hooks_for-register :
      (p q : Phase) (e f : Event) (hook : Hook W E Ctx) (r : Registry W E Ctx)
      → hooks_for q f (register p e hook r)
        ≡ (if hook_key p e == hook_key q f then hooks_for q f r ++ hook ∷ [] else hooks_for q f r)
  hooks_for-register p q e f hook r =
      ap (hooks_for q f) (register-insert p e hook r)
      ∙ hooks_for-insert (hook_key p e) _ q f r
      ∙ append_under (hook_key p e == hook_key q f) _ _ hook _
          (λ same. hooks_for-key p q e f r ((list_beq_iff _ _).0 same))

  -- The declared hooks whose phase and event have the key `k`.
  abbrev picked : Text → List (Phase × Event) → DeclarativeHooks W E Ctx → List (Hook W E Ctx)
  picked k [] hooks = []
  picked k ((p, e) ∷ rest) hooks =
      (if hook_key p e == k then as_list (hooks (declarative_key p e)) else [])
      ++ picked k rest hooks

  hooks_for-declared :
      (p q : Phase) (e f : Event) (o : Option (Hook W E Ctx)) (r : Registry W E Ctx)
      → hooks_for q f (elim o [ none ↦ r | some hook ↦ register p e hook r ])
        ≡ hooks_for q f r ++ (if hook_key p e == hook_key q f then as_list o else [])
  hooks_for-declared p q e f none r = append_nothing (hook_key p e == hook_key q f) _
  hooks_for-declared p q e f (some hook) r =
      hooks_for-register p q e f hook r ∙ append_one (hook_key p e == hook_key q f) _ hook

  hooks_for-load_from :
      (ps : List (Phase × Event)) (hooks : DeclarativeHooks W E Ctx) (r : Registry W E Ctx)
      (q : Phase) (f : Event)
      → hooks_for q f (load_from ps hooks r) ≡ hooks_for q f r ++ picked (hook_key q f) ps hooks
  unfolding load_from
  hooks_for-load_from [] hooks r q f = sym (append-nil _)
  hooks_for-load_from ((p, e) ∷ rest) hooks r q f =
      hooks_for-load_from rest hooks _ q f
      ∙ ap (λ hs. hs ++ picked (hook_key q f) rest hooks)
          (hooks_for-declared p q e f (hooks (declarative_key p e)) r)
      ∙ append_assoc (hooks_for q f r) _ _

  picked-all :
      (q : Phase) (f : Event) (hooks : DeclarativeHooks W E Ctx)
      → picked (hook_key q f) phase_events hooks ≡ as_list (hooks (declarative_key q f))
  unfolding declarative_key
  picked-all before provision hooks = append-nil _
  picked-all before destroy hooks = append-nil _
  picked-all before backup hooks = append-nil _
  picked-all before restore hooks = append-nil _
  picked-all before clone hooks = append-nil _
  picked-all before migrate hooks = append-nil _
  picked-all after provision hooks = append-nil _
  picked-all after destroy hooks = append-nil _
  picked-all after backup hooks = append-nil _
  picked-all after restore hooks = append-nil _
  picked-all after clone hooks = append-nil _
  picked-all after migrate hooks = append-nil _

  -- Loading a declaration adds, for each of the twelve phases and events, the hook declared under
  -- its own field and no other, behind those that were there.
  pub hooks_for-load_declarative :
      (hooks : DeclarativeHooks W E Ctx) (r : Registry W E Ctx) (q : Phase) (f : Event)
      → hooks_for q f (load_declarative (some hooks) r)
        ≡ hooks_for q f r ++ as_list (hooks (declarative_key q f))
  unfolding load_declarative
  hooks_for-load_declarative hooks r q f =
      hooks_for-load_from phase_events hooks r q f
      ∙ ap (λ hs. hooks_for q f r ++ hs) (picked-all q f hooks)
