-- ===== src/Prelude/Maps.antt =====
-- A JavaScript `Map`: entries in insertion order; a write to a present key keeps its place.
pub mod Laws
use mathlib.Core.Path.{◌≡◌, refl}
use mathlib.Core.Logic.{◌≢◌}
use mathlib.Core.Bool.{Bool, true, false}
use mathlib.Core.List.{List, [], ◌∷◌, ◌++◌}
use mathlib.Core.Option.{Option, none, some}
use native.Mathlib.Omega.{arith}
use adonisjs_lasagna_multite.Prelude.Tests.{StrictEq, ◌==◌, if◌then◌else◌, beq_refl, beq_ne}
use adonisjs_lasagna_multite.Prelude.Lists.{All}

abbrev pub JsMap {ℓ κ} : Type ℓ → Type κ → Type (ℓ ⊔ κ)
JsMap K V = List (K × V)

module _ {ℓ κ} {K : Type ℓ} {V : Type κ} where
  -- `[...m.keys()]`
  abbrev pub keys : JsMap K V → List K
  keys [] = []
  keys ((j, _) ∷ m) = j ∷ keys m

  -- `[...m.values()]`
  abbrev pub values : JsMap K V → List V
  values [] = []
  values ((_, v) ∷ m) = v ∷ values m

module _ {ℓ} {K : Type ℓ} where
  -- The name is not in the list.
  abbrev pub Fresh : K → List K → Type ℓ
  Fresh k ks = All (λ j. j ≢ k) ks

  -- No name is listed twice.
  abbrev pub Unique : List K → Type ℓ
  Unique [] = Unit
  Unique (k ∷ ks) = Fresh k ks × Unique ks

  -- `list.splice(list.indexOf(k), 1)` for a name that is listed; else nothing
  abbrev pub remove_first : ⦃e : StrictEq K⦄ → K → List K → List K
  remove_first k [] = []
  remove_first k (j ∷ ks) = if j == k then ks else j ∷ remove_first k ks

module _ {ℓ κ} {K : Type ℓ} {V : Type κ} ⦃e : StrictEq K⦄ where
  -- `m.get(k)`, `none` for `undefined`
  abbrev pub lookup : K → JsMap K V → Option V
  lookup k [] = none
  lookup k ((j, v) ∷ m) = if j == k then some v else lookup k m

  -- `m.has(k)`
  abbrev pub has_key : K → JsMap K V → Bool
  has_key k [] = false
  has_key k ((j, v) ∷ m) = if j == k then true else has_key k m

  -- `m.set(k, v)`
  abbrev pub insert : K → V → JsMap K V → JsMap K V
  insert k v [] = (k, v) ∷ []
  insert k v ((j, w) ∷ m) = if j == k then (j, v) ∷ m else (j, w) ∷ insert k v m

  -- `m.delete(k)`; a key stands once, and all its entries go
  abbrev pub erase : K → JsMap K V → JsMap K V
  erase k [] = []
  erase k ((j, w) ∷ m) = if j == k then erase k m else (j, w) ∷ erase k m

  pub lookup-insert :
      (k j : K) (v : V) (m : JsMap K V)
      → lookup j (insert k v m) ≡ (if k == j then some v else lookup j m)
  lookup-insert k j v [] = refl
  lookup-insert k j v ((i, w) ∷ m) =
      ground (arith, e.same_iff k j, e.same_iff i k, e.same_iff i j, lookup-insert k j v m)

  pub lookup-erase :
      (k j : K) (m : JsMap K V) → lookup j (erase k m) ≡ (if k == j then none else lookup j m)
  lookup-erase k j [] = ground arith
  lookup-erase k j ((i, w) ∷ m) =
      ground (arith, e.same_iff k j, e.same_iff i k, e.same_iff i j, lookup-erase k j m)

  -- Every listed entry is the one that the map finds.
  abbrev pub Bound : JsMap K V → JsMap K V → Type κ
  Bound m es = All (λ e. lookup e.0 m ≡ some e.1) es
