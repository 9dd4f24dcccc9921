-- ===== src/Tenancy/Bootstrap/Invariant.antt =====
-- The invariant of src/services/bootstrapper_registry.ts: `#items` and `#order` agree.
use adonisjs_lasagna_multite.Prelude.{
  String, ◌≡◌, refl, sym, subst, ap, ◌∙◌, true, false, none, [], ◌∷◌, arith, Bool-cases, All,
  string_eq, inl, inr, if◌then◌else◌, ◌==◌, ◌++◌,
}
use adonisjs_lasagna_multite.Prelude.Effects.{Outcome, returned, thrown}
use adonisjs_lasagna_multite.Prelude.Maps.{
  JsMap, lookup, has_key, insert, erase, keys, lookup-erase, remove_first, Unique,
}
use adonisjs_lasagna_multite.Prelude.Maps.Laws.{
  keys-insert, erase-Fresh, Fresh-has_key, remove_first-keys, Unique-append, Unique-erase,
}
use adonisjs_lasagna_multite.Tenancy.Bootstrap.{
  Bootstrapper, Registry, RegistryError, already_registered, empty, register, unregister, clear,
  has, list,
}

module _ {W E Ctx : Type 0} where
  -- Each bootstrapper is kept under its own name.
  abbrev pub IsNamed : JsMap String (Bootstrapper W E Ctx) → Type 0
  IsNamed m = All (λ e. e.1.name ≡ e.0) m

  -- The order of registration is the order of the map, with no name twice.
  pub record IsValid (r : Registry W E Ctx) : Type 0 where
    pub ordered : r.order ≡ keys r.items
    pub unique : Unique (keys r.items)
    pub named : IsNamed r.items

  IsNamed-insert :
      (b : Bootstrapper W E Ctx) (m : JsMap String (Bootstrapper W E Ctx))
      → has_key b.name m ≡ false
      → IsNamed m
      → IsNamed (insert b.name b m)
  IsNamed-insert b [] h n = (refl, tt)
  IsNamed-insert b ((j, c) ∷ m) h n = ground (arith, IsNamed-insert b m)

  IsNamed-erase :
      (k : String) (m : JsMap String (Bootstrapper W E Ctx)) → IsNamed m → IsNamed (erase k m)
  IsNamed-erase k [] n = tt
  IsNamed-erase k ((j, c) ∷ m) n = ground (arith, IsNamed-erase k m)

  keys-append :
      (b : Bootstrapper W E Ctx) (r : Registry W E Ctx)
      → IsValid r
      → has_key b.name r.items ≡ false
      → r.order ++ b.name ∷ [] ≡ keys (insert b.name b r.items)
  keys-append b r v free = rw (keys-insert b.name b r.items, free, v.ordered)

  insert-IsValid :
      (b : Bootstrapper W E Ctx) (r : Registry W E Ctx)
      → IsValid r
      → has_key b.name r.items ≡ false
      → IsValid (record { items = insert b.name b r.items; order = r.order ++ b.name ∷ [] })
  insert-IsValid b r v free = record {
    ordered = keys-append b r v free;
    unique =
        subst Unique (sym (keys-insert b.name b r.items))
          (rw free (Unique-append b.name _ v.unique (Fresh-has_key b.name r.items free)));
    named = IsNamed-insert b r.items free v.named;
  }

  -- What a call of `register` may give.
  abbrev pub Registered :
      Bootstrapper W E Ctx → Registry W E Ctx → Outcome RegistryError (Registry W E Ctx) → Type 0
  Registered b r (thrown e) = (has r b.name ≡ true) × (e ≡ already_registered b.name)
  Registered b r (returned r') =
      (has r b.name ≡ false) × IsValid r' × (list r' ≡ list r ++ b.name ∷ [])

  -- On a valid registry `register` throws exactly for a name that is taken; otherwise the registry
  -- stays valid and lists the new name last.
  pub register-Registered :
      (b : Bootstrapper W E Ctx) (r : Registry W E Ctx) → IsValid r → Registered b r (register b r)
  unfolding register has list
  register-Registered b r v = elim (Bool-cases (has_key b.name r.items)) [
    | inl taken ↦ rw taken (taken, refl)
    | inr free ↦ rw free (free, insert-IsValid b r v free, refl)
  ]

  remove_first-order :
      (name : String) (r : Registry W E Ctx)
      → IsValid r
      → remove_first name r.order ≡ keys (erase name r.items)
  remove_first-order name r v =
      ap (remove_first name) v.ordered ∙ remove_first-keys name r.items v.unique

  erase-IsValid :
      (name : String) (r : Registry W E Ctx)
      → IsValid r
      → IsValid (record { items = erase name r.items; order = remove_first name r.order })
  erase-IsValid name r v = record {
    ordered = remove_first-order name r v;
    unique = Unique-erase name r.items v.unique;
    named = IsNamed-erase name r.items v.named;
  }

  erase_missing :
      (name : String) (r : Registry W E Ctx)
      → has_key name r.items ≡ false
      → erase name r.items ≡ r.items
  erase_missing name r h = erase-Fresh name r.items (Fresh-has_key name r.items h)

  -- `unregister` keeps the registry valid, removes the name from the list and from the map, and
  -- tells whether it was there; other names stay.
  pub unregister_lem :
      (name : String) (r : Registry W E Ctx)
      → IsValid r
      → IsValid (unregister name r).0
        × ((unregister name r).1 ≡ has r name)
        × (list (unregister name r).0 ≡ remove_first name (list r))
        × ((j : String)
            → lookup j (unregister name r).0.items ≡ (if name == j then none else lookup j r.items))
  unfolding unregister has list
  unregister_lem name r v = elim (Bool-cases (has_key name r.items)) [
    | inl found ↦ rw found (erase-IsValid name r v, refl, refl, λ j. lookup-erase name j r.items)
    | inr missing ↦ rw missing (
      v,
      refl,
      v.ordered ∙ ap keys (sym (erase_missing name r missing)) ∙ sym (remove_first-order name r v),
      λ j.
          subst (λ m. lookup j m ≡ (if name == j then none else lookup j r.items))
            (erase_missing name r missing) (lookup-erase name j r.items),
    )
  ]

  -- A registry that a program builds from the empty one.
  pub data Built : Registry W E Ctx → Type 0 where
    start : Built empty
    registered :
        {r r' : Registry W E Ctx} (b : Bootstrapper W E Ctx)
        → Built r
        → register b r ≡ returned r'
        → Built r'
    unregistered : {r : Registry W E Ctx} (name : String) → Built r → Built (unregister name r).0
    cleared : {r : Registry W E Ctx} → Built r → Built (clear r)

  empty-IsValid : IsValid empty
  empty-IsValid = record { ordered = refl; unique = tt; named = tt }

  -- Every registry that the operations build is valid: `#order` is the key order of `#items`, no
  -- name stands twice, and each bootstrapper is kept under its own name.
  pub Built-IsValid : {r : Registry W E Ctx} → Built r → IsValid r
  unfolding clear
  Built-IsValid start = empty-IsValid
  Built-IsValid (registered {r} b h e) =
      (subst (Registered b r) e (register-Registered b r (Built-IsValid h))).1
  Built-IsValid (unregistered {r} name h) = (unregister_lem name r (Built-IsValid h)).0
  Built-IsValid (cleared h) = empty-IsValid
