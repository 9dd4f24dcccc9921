-- ===== src/Prelude/Maps/Laws.antt =====
-- Laws of the ordered maps: which keys a write or a deletion leaves, and in which order.
use mathlib.Core.Path.{◌≡◌, refl, sym, ◌∙◌}
use Prim.Native.Nat.{suc, ◌≤◌, ◌<◌}
use adonisjs_lasagna_multite.Prelude.Lists.{length}
use mathlib.Core.Logic.{◌≢◌}
use mathlib.Core.Bool.{true, false}
use mathlib.Core.List.{List, [], ◌∷◌, ◌++◌}
use mathlib.Core.Option.{none, some}
use native.Mathlib.Omega.{arith}
use adonisjs_lasagna_multite.Prelude.Tests.{StrictEq, ◌==◌, if◌then◌else◌, beq_refl, beq_ne}
use adonisjs_lasagna_multite.Prelude.Maps.{
  JsMap, lookup, has_key, insert, erase, keys, remove_first, Fresh, Unique, Bound, lookup-insert,
  lookup-erase,
}

module _ {ℓ} {K : Type ℓ} where
  pub Fresh-append : (k j : K) (ks : List K) → Fresh k ks → j ≢ k → Fresh k (ks ++ j ∷ [])
  Fresh-append k j [] h ne = (ne, tt)
  Fresh-append k j (i ∷ ks) (d, h) ne = (d, Fresh-append k j ks h ne)

  pub Unique-append : (k : K) (ks : List K) → Unique ks → Fresh k ks → Unique (ks ++ k ∷ [])
  Unique-append k [] u h = (tt, tt)
  Unique-append k (j ∷ ks) (f, u) (ne, h) =
      (Fresh-append j k ks f (λ p. ne (sym p)), Unique-append k ks u h)

module _ {ℓ κ} {K : Type ℓ} {V : Type κ} ⦃e : StrictEq K⦄ where
  pub has_key-lookup :
      (k : K) (m : JsMap K V) → has_key k m ≡ elim (lookup k m) [ none ↦ false | some _ ↦ true ]
  has_key-lookup k [] = refl
  has_key-lookup k ((j, v) ∷ m) = ground (arith, has_key-lookup k m)

  pub keys-insert :
      (k : K) (v : V) (m : JsMap K V)
      → keys (insert k v m) ≡ (if has_key k m then keys m else keys m ++ k ∷ [])
  keys-insert k v [] = refl
  keys-insert k v ((j, w) ∷ m) = ground (arith, keys-insert k v m)

  pub Fresh-has_key : (k : K) (m : JsMap K V) → has_key k m ≡ false → Fresh k (keys m)
  Fresh-has_key k [] h = tt
  Fresh-has_key k ((j, v) ∷ m) h = ground (arith, e.same_iff j k, Fresh-has_key k m)

  pub has_key-Fresh : (k : K) (m : JsMap K V) → Fresh k (keys m) → has_key k m ≡ false
  has_key-Fresh k [] h = refl
  has_key-Fresh k ((j, v) ∷ m) (ne, h) = rw (beq_ne ne) (has_key-Fresh k m h)

  pub erase-Fresh : (k : K) (m : JsMap K V) → Fresh k (keys m) → erase k m ≡ m
  erase-Fresh k [] h = refl
  erase-Fresh k ((j, v) ∷ m) (ne, h) = rw (beq_ne ne, erase-Fresh k m h)

  pub remove_first-keys :
      (k : K) (m : JsMap K V) → Unique (keys m) → remove_first k (keys m) ≡ keys (erase k m)
  remove_first-keys k [] h = refl
  remove_first-keys k ((j, v) ∷ m) (fresh, h) =
      ground (arith, e.same_iff j k, remove_first-keys k m h, erase-Fresh k m)

  pub Fresh-erase : (k j : K) (m : JsMap K V) → Fresh j (keys m) → Fresh j (keys (erase k m))
  Fresh-erase k j [] h = tt
  Fresh-erase k j ((i, v) ∷ m) (ne, h) = ground (arith, Fresh-erase k j m h)

  pub Unique-erase : (k : K) (m : JsMap K V) → Unique (keys m) → Unique (keys (erase k m))
  Unique-erase k [] h = tt
  Unique-erase k ((i, v) ∷ m) (f, h) = ground (arith, Unique-erase k m h, Fresh-erase k i m f)

  Bound-weaken :
      (k : K) (v : V) (m es : JsMap K V) → Fresh k (keys es) → Bound m es → Bound ((k, v) ∷ m) es
  Bound-weaken k v m [] f h = tt
  Bound-weaken k v m ((j, w) ∷ es) (ne, f) (b, h) =
      (rw (beq_ne (λ p. ne (sym p))) b, Bound-weaken k v m es f h)

  -- In a map with no key twice every entry is found under its key.
  pub Bound-self : (m : JsMap K V) → Unique (keys m) → Bound m m
  Bound-self [] h = tt
  Bound-self ((k, v) ∷ m) (f, h) = (rw (beq_refl k) refl, Bound-weaken k v m m f (Bound-self m h))

  pub has_key_of_none : (k : K) (m : JsMap K V) → lookup k m ≡ none → has_key k m ≡ false
  has_key_of_none k m h = rw (has_key-lookup k m, h)

  pub has_key_of_some : (k : K) (m : JsMap K V) {v : V} → lookup k m ≡ some v → has_key k m ≡ true
  has_key_of_some k m h = rw (has_key-lookup k m, h)

  pub has_key-insert :
      (k j : K) (v : V) (m : JsMap K V)
      → has_key j (insert k v m) ≡ (if k == j then true else has_key j m)
  has_key-insert k j v m =
      ground (arith, has_key-lookup j (insert k v m), has_key-lookup j m, lookup-insert k j v m)

  pub has_key-erase :
      (k j : K) (m : JsMap K V) → has_key j (erase k m) ≡ (if k == j then false else has_key j m)
  has_key-erase k j m =
      ground (arith, has_key-lookup j (erase k m), has_key-lookup j m, lookup-erase k j m)

  pub length-erase : (k : K) (m : JsMap K V) → length (erase k m) ≤ length m
  length-erase k [] = omega arith
  length-erase k ((j, v) ∷ m) = ground (arith, length-erase k m)

  pub length-insert : (k : K) (v : V) (m : JsMap K V) → length (insert k v m) ≤ suc (length m)
  length-insert k v [] = omega arith
  length-insert k v ((j, w) ∷ m) = ground (arith, length-insert k v m)

  -- A key that is deleted and then written stands behind the others.
  pub insert-Fresh :
      (k : K) (v : V) (m : JsMap K V) → Fresh k (keys m) → insert k v m ≡ m ++ (k, v) ∷ []
  insert-Fresh k v [] h = refl
  insert-Fresh k v ((j, w) ∷ m) (ne, h) = rw (beq_ne ne, insert-Fresh k v m h)

  pub Fresh-erase_same : (k : K) (m : JsMap K V) → Fresh k (keys (erase k m))
  Fresh-erase_same k m = Fresh-has_key k (erase k m) (
      let gone : (if k == k then false else has_key k m) ≡ false = rw (beq_refl k) refl in
      has_key-erase k k m ∙ gone)

  pub Unique-insert :
      (k : K) (v : V) (m : JsMap K V)
      → Unique (keys m)
      → Fresh k (keys m)
      → Unique (keys (insert k v m))
  Unique-insert k v m u f =
      let absent : has_key k m ≡ false = has_key-Fresh k m f in
      rw (keys-insert k v m, absent) (Unique-append k (keys m) u f)

  pub length-erase_key :
      (k : K) (m : JsMap K V) → has_key k m ≡ true → length (erase k m) < length m
  length-erase_key k [] h = absurd (ground arith)
  length-erase_key k ((j, v) ∷ m) h = ground (arith, length-erase k m, length-erase_key k m)
