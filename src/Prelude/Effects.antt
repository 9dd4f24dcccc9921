-- ===== src/Prelude/Effects.antt =====
-- An awaited call that can throw: it changes the outside world, and returns or throws. The world
-- and the thrown values are left open.

pub data Outcome {ℓ κ} (E : Type ℓ) (A : Type κ) : Type (ℓ ⊔ κ) where
  returned : A → Outcome E A
  thrown : E → Outcome E A

-- A call in the world `W`.
abbrev pub Effect : Type 0 → Type 0 → Type 0 → Type 0
Effect W E A = W → Outcome E A × W

module _ {W E : Type 0} where
  abbrev pub pure : {A : Type 0} → A → Effect W E A
  pure a w = (returned a, w)

  abbrev pub throw : {A : Type 0} → E → Effect W E A
  throw e w = (thrown e, w)

  infixl 5 ◌>>=◌ ◌>>◌
  abbrev pub ◌>>=◌ : {A B : Type 0} → Effect W E A → (A → Effect W E B) → Effect W E B
  ◌>>=◌ m f w = let (r, w') = m w in elim r [ returned a ↦ f a w' | thrown e ↦ (thrown e, w') ]

  abbrev pub ◌>>◌ : {A B : Type 0} → Effect W E A → Effect W E B → Effect W E B
  m >> k = m >>= λ _. k

-- How a call ends: what holds when it returns, and what holds when it throws.
module _ {W E A : Type 0} where
  abbrev pub Ends : (A → W → Type 0) → (E → W → Type 0) → Outcome E A × W → Type 0
  Ends Q X (returned a, w) = Q a w
  Ends Q X (thrown e, w) = X e w

  pub Ends-weaken :
      {Q R : A → W → Type 0} {X Y : E → W → Type 0} (result : Outcome E A × W)
      → Ends Q X result
      → ((a : A) (w : W) → Q a w → R a w)
      → ((e : E) (w : W) → X e w → Y e w)
      → Ends R Y result
  Ends-weaken (returned a, w) h on_return on_throw = on_return a w h
  Ends-weaken (thrown e, w) h on_return on_throw = on_throw e w h

module _ {W E A B : Type 0} where
  pub Ends-bind :
      (Q : A → W → Type 0) (R : B → W → Type 0) (X : E → W → Type 0) (m : Effect W E A)
      (f : A → Effect W E B) (w : W)
      → Ends Q X (m w)
      → ((a : A) (w' : W) → Q a w' → Ends R X (f a w'))
      → Ends R X ((m >>= f) w)
  Ends-bind Q R X m f w h then_f = bound (m w) h
    where
      bound : (r : Outcome E A × W) → Ends Q X r → Ends R X (((λ (_ : W). r) >>= f) w)
      bound (returned a, w') h = then_f a w' h
      bound (thrown e, w') h = h
