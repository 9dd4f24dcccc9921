-- ===== src/Prelude/Lists.antt =====
-- Lists measured and indexed by native numbers, and predicates on lists.
use Prim.Native.Nat.{ℕ, zero, suc, ◌+◌, ◌≤◌, min}
use mathlib.Core.Path.{◌≡◌, refl, ap}
use mathlib.Core.List.{List, [], ◌∷◌, ◌++◌, append_assoc}
use mathlib.Core.Logic.{◌↔◌, ◌⊎◌, inl, inr}
use mathlib.Core.Bool.{Bool, true, false, ◌&&◌, ◌||◌}
use mathlib.Core.Option.{Option, none, some}
use native.Mathlib.Omega.{arith}

module _ {ℓ} {A : Type ℓ} where
  abbrev pub length : List A → ℕ
  length [] = 0
  length (x ∷ xs) = suc (length xs)

  abbrev pub get_elem? : List A → ℕ → Option A
  get_elem? [] i = none
  get_elem? (x ∷ xs) zero = some x
  get_elem? (x ∷ xs) (suc i) = get_elem? xs i

  abbrev pub take : ℕ → List A → List A
  take zero xs = []
  take (suc n) [] = []
  take (suc n) (x ∷ xs) = x ∷ take n xs

  abbrev pub drop : ℕ → List A → List A
  drop zero xs = xs
  drop (suc n) [] = []
  drop (suc n) (x ∷ xs) = drop n xs

  abbrev pub any : (A → Bool) → List A → Bool
  any p [] = false
  any p (x ∷ xs) = p x || any p xs

  -- `xs.filter(p)`
  abbrev pub filter : (A → Bool) → List A → List A
  filter p [] = []
  filter p (x ∷ xs) = let rest = filter p xs in elim (p x) [ true ↦ x ∷ rest | false ↦ rest ]

  abbrev pub all : (A → Bool) → List A → Bool
  all p [] = true
  all p (x ∷ xs) = p x && all p xs

  pub length-append : (xs ys : List A) → length (xs ++ ys) ≡ length xs + length ys
  length-append [] ys = omega arith
  length-append (x ∷ xs) ys = omega (arith, length-append xs ys)

  pub take-append-drop : (n : ℕ) (xs : List A) → take n xs ++ drop n xs ≡ xs
  take-append-drop zero xs = refl
  take-append-drop (suc n) [] = refl
  take-append-drop (suc n) (x ∷ xs) = rw (take-append-drop n xs)

  pub length-take : (n : ℕ) (xs : List A) → length (take n xs) ≡ min n (length xs)
  length-take zero xs = omega arith
  length-take (suc n) [] = omega arith
  length-take (suc n) (x ∷ xs) = omega (arith, length-take n xs)

module _ {ℓ} {A : Type ℓ} where
  pub get_elem?-append :
      (xs : List A) (x : A) (ys : List A) → get_elem? (xs ++ x ∷ ys) (length xs) ≡ some x
  get_elem?-append [] x ys = refl
  get_elem?-append (y ∷ xs) x ys = get_elem?-append xs x ys

  pub take-append : (n : ℕ) (xs ys : List A) → n ≤ length xs → take n (xs ++ ys) ≡ take n xs
  take-append zero xs ys h = refl
  take-append (suc n) [] ys h = absurd (omega arith)
  take-append (suc n) (x ∷ xs) ys h = rw (take-append n xs ys (omega arith))

  pub append-cons : (xs : List A) (x : A) (ys : List A) → (xs ++ x ∷ []) ++ ys ≡ xs ++ x ∷ ys
  append-cons xs x ys = append_assoc xs (x ∷ []) ys

module _ {A : Type 0} where
  -- The element stands in the list.
  abbrev pub Listed : A → List A → Type 0
  Listed a [] = ⊥
  Listed a (x ∷ xs) = (x ≡ a) ⊎ Listed a xs

  pub Listed-filter :
      (p : A → Bool) (a : A) (xs : List A) → Listed a (filter p xs) ↔ (Listed a xs × (p a ≡ true))
  Listed-filter p a [] = (λ h. elim h [ ], λ h. elim h.0 [ ])
  Listed-filter p a (x ∷ xs) = split (p x) refl (Listed-filter p a xs)
    where
      split :
          (b : Bool)
          → p x ≡ b
          → Listed a (filter p xs) ↔ (Listed a xs × (p a ≡ true))
          → Listed a (elim b as (λ _. List A) [ true ↦ x ∷ filter p xs | false ↦ filter p xs ])
            ↔ (Listed a (x ∷ xs) × (p a ≡ true))
      split true e (to, from) = (
        λ h. elim h [
          | inl same ↦ (inl same, cc (e, ap p same))
          | inr rest ↦ (inr (to rest).0, (to rest).1)
        ],
        λ h. elim h.0 [ inl same ↦ inl same | inr rest ↦ inr (from (rest, h.1)) ],
      )
      split false e (to, from) = (
        λ h. (inr (to h).0, (to h).1),
        λ h. elim h.0 [ inl same ↦ absurd (cc (e, ap p same, h.1)) | inr rest ↦ from (rest, h.1) ],
      )

module _ {A : Type 0} (p : A → Bool) (a : A) (same : (x : A) → (p x ≡ true) ↔ (x ≡ a)) where
  -- `xs.includes(a)`, as a test of the elements
  pub any-Listed : (xs : List A) → (any p xs ≡ true) ↔ Listed a xs
  any-Listed [] = ((λ h. absurd cc), (λ h. elim h [ ]))
  any-Listed (x ∷ xs) = here (p x) refl (any-Listed xs)
    where
      here :
          (b : Bool)
          → p x ≡ b
          → (any p xs ≡ true) ↔ Listed a xs
          → ((b || any p xs) ≡ true) ↔ ((x ≡ a) ⊎ Listed a xs)
      here true e (to, from) = ((λ h. inl ((same x).0 e)), (λ h. refl))
      here false e (to, from) = (
        (λ h. inr (to h)),
        (λ h. elim h [ inl at ↦ absurd (cc (e, (same x).1 at)) | inr rest ↦ from rest ]),
      )

module _ {ℓ κ} {A : Type ℓ} (P : A → Type κ) where
  abbrev pub All : List A → Type κ
  All [] = Unit
  All (x ∷ xs) = P x × All xs

  pub All-append : (xs ys : List A) → All xs → All ys → All (xs ++ ys)
  All-append [] ys hx hy = hy
  All-append (x ∷ xs) ys hx hy = (hx.0, All-append xs ys hx.1 hy)
