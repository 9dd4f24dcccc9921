-- ===== src/Access/Redirects/Ports.antt =====
-- The text of a port in the URLs of src/services/cross_domain_redirect_service.ts.
use adonisjs_lasagna_multite.Prelude.{
  ℕ, zero, suc, ◌+◌, ◌-◌, ◌*◌, ◌/◌, ◌%◌, ◌<◌, ◌≡◌, refl, ap, ◌∙◌, true, Option, none, some, [], ◌∷◌,
  ◌++◌, arith, all, ltb, is_digit, Bool-cases, inl, inr, Text,
}
use adonisjs_lasagna_multite.Prelude.Effects.{Outcome, returned, thrown}
use adonisjs_lasagna_multite.Access.Redirects.{UrlError, invalid_port, decimal, port_suffix}
use adonisjs_lasagna_multite.Access.Redirects.Authority.{is_authority, all-append}

-- The number that decimal digits stand for, behind the ones that `n` stands for.
abbrev pub value_of : ℕ → Text → ℕ
value_of n [] = n
value_of n (c ∷ digits) = value_of (n * 10 + (c - 48)) digits

-- The digits of a port behind a colon, and nothing for no port.
abbrev pub IsPortSuffix : Option ℕ → Text → Type 0
IsPortSuffix none text = text ≡ []
IsPortSuffix (some zero) text = text ≡ []
IsPortSuffix (some (suc n)) text =
    (digits : Text) × (text ≡ b':' ∷ digits)
    × (all is_digit digits ≡ true)
    × (value_of 0 digits ≡ suc n)

-- What the port of the options gives: nothing, or its digits behind a colon; refused above 65535.
abbrev pub PortGives : Option ℕ → Outcome UrlError Text → Type 0
PortGives port (returned p) = IsPortSuffix port p
PortGives port (thrown (invalid_port n)) = (port ≡ some n) × (65535 < n)
PortGives port (thrown _) = ⊥

digit-is_digit : (n : ℕ) → n < 10 → is_digit (48 + n) ≡ true
digit-is_digit n h = ground arith

decimal-is_digit : (fuel n : ℕ) → all is_digit (decimal fuel n) ≡ true
decimal-is_digit zero n = refl
decimal-is_digit (suc fuel) n = elim (Bool-cases (ltb n 10)) [
  | inl small ↦ rw (small, digit-is_digit n (ground arith)) refl
  | inr large ↦ rw large (
      all-append is_digit (decimal fuel (n / 10)) ((48 + n % 10) ∷ [])
        (decimal-is_digit fuel (n / 10)) (rw (digit-is_digit (n % 10) (omega arith)) refl))
]

value_of-append : (n : ℕ) (a b : Text) → value_of n (a ++ b) ≡ value_of (value_of n a) b
value_of-append n [] b = refl
value_of-append n (c ∷ a) b = value_of-append (n * 10 + (c - 48)) a b

-- As many digits as a number below `10 ^ fuel` has are enough.
abbrev power : ℕ → ℕ
power zero = 1
power (suc fuel) = 10 * power fuel

value_of-decimal : (fuel n : ℕ) → n < power fuel → value_of 0 (decimal fuel n) ≡ n
value_of-decimal zero n h = omega (arith, h)
value_of-decimal (suc fuel) n h = elim (Bool-cases (ltb n 10)) [
  | inl small ↦ rw small (omega arith)
  | inr large ↦ rw large (
      value_of-append 0 (decimal fuel (n / 10)) ((48 + n % 10) ∷ [])
      ∙ ap (λ m. m * 10 + (48 + n % 10 - 48)) (value_of-decimal fuel (n / 10) (omega (arith, h)))
      ∙ omega arith)
]

pub port_suffix-PortGives : (port : Option ℕ) → PortGives port (port_suffix port)
port_suffix-PortGives none = refl
port_suffix-PortGives (some zero) = refl
port_suffix-PortGives (some (suc n)) = elim (Bool-cases (ltb 65535 (suc n))) [
  | inl above ↦ rw above (refl, ground arith)
  | inr within ↦ rw within (
    decimal 5 (suc n),
    refl,
    decimal-is_digit 5 (suc n),
    value_of-decimal 5 (suc n) (ground arith),
  )
]

digits-are_authority : (p : Text) → all is_digit p ≡ true → is_authority p ≡ true
digits-are_authority [] h = refl
digits-are_authority (c ∷ p) h = ground (arith, digits-are_authority p)

pub IsPortSuffix-is_authority :
    (port : Option ℕ) (p : Text) → IsPortSuffix port p → is_authority p ≡ true
IsPortSuffix-is_authority none p h = ap is_authority h
IsPortSuffix-is_authority (some zero) p h = ap is_authority h
IsPortSuffix-is_authority (some (suc n)) p (digits, text, all_digits, _) =
    ap is_authority text ∙ digits-are_authority digits all_digits
