-- ===== src/Isolation/Identifier/Laws.antt =====
-- What the identifier policy of src/services/isolation/identifier.ts guarantees.
use adonisjs_lasagna_multite.Isolation.Identifier.{IdentifierError}
use adonisjs_lasagna_multite.Prelude.{
  ℕ, ◌≤◌, ◌≡◌, ◌≢◌, ◌↔◌, ◌⊎◌, refl, ◌-◌, Bool, true, false, List, [], ◌∷◌, ◌++◌, arith, length, all,
  All, take, Text, matches, length-append, ap, sym, ◌∙◌, All-append, take-append, get_elem?,
  get_elem?-append, some,
}
use mathlib.Core.List.{append_assoc}
use adonisjs_lasagna_multite.Prelude.Effects.{Outcome, returned, thrown}
use adonisjs_lasagna_multite.Isolation.Identifier.{
  is_hex, is_variant, literal, uuid_v4_pattern, is_uuid_v4, is_ident_char, is_safe_ident,
  unsafe_identifier, assert_safe_identifier, schema_name, after_assert,
}

-- A code unit that the policy allows: a letter, a digit, `_` or `-`.
abbrev pub IdentChar : ℕ → Type 0
IdentChar c =
    ((b'a' ≤ c) × (c ≤ b'z'))
    ⊎ ((b'A' ≤ c) × (c ≤ b'Z'))
    ⊎ ((b'0' ≤ c) × (c ≤ b'9'))
    ⊎ (c ≡ b'_')
    ⊎ (c ≡ b'-')

is_ident_char_iff : (c : ℕ) → (is_ident_char c ≡ true) ↔ IdentChar c
unfolding is_ident_char
is_ident_char_iff c = ground arith

all_iff : (s : Text) → (all is_ident_char s ≡ true) ↔ All IdentChar s
all_iff [] = ground arith
all_iff (c ∷ s) = ground (arith, is_ident_char_iff c, all_iff s)

-- A value passes the policy exactly when it has 1 to 63 code units, each a letter, a digit, `_` or
-- `-`; any other value is refused with an error that names it. So no value that passes holds a
-- double quote, and none ends the quoted identifier that it is put into.
pub assert_safe_identifier_iff :
    (s : Text)
    → ((assert_safe_identifier s ≡ returned tt)
        ↔ ((1 ≤ length s) × (length s ≤ 63) × All IdentChar s))
      × ((is_safe_ident s ≡ false) ↔ (assert_safe_identifier s ≡ thrown (unsafe_identifier s)))
unfolding assert_safe_identifier
assert_safe_identifier_iff s = ground (arith, all_iff s)

abbrev Allowed : (ℕ → Bool) → Type 0
Allowed p = (c : ℕ) → p c ≡ true → is_ident_char c ≡ true

hex-Allowed : Allowed is_hex
unfolding is_hex is_ident_char
hex-Allowed c h = ground arith

variant-Allowed : Allowed is_variant
unfolding is_variant is_ident_char
variant-Allowed c h = ground arith

dash-Allowed : Allowed (literal b'-')
unfolding is_ident_char
dash-Allowed c h = ground arith

four-Allowed : Allowed (literal b'4')
unfolding is_ident_char
four-Allowed c h = ground arith

pattern-Allowed : All Allowed uuid_v4_pattern
pattern-Allowed = assumption (hex-Allowed, variant-Allowed, dash-Allowed, four-Allowed, tt)

matches-all :
    (ps : List (ℕ → Bool)) (s : Text)
    → All Allowed ps
    → matches ps s ≡ true
    → (all is_ident_char s ≡ true) × (length s ≡ length ps)
matches-all [] [] a h = (refl, refl)
matches-all [] (c ∷ s) a h = absurd (ground arith)
matches-all (p ∷ ps) [] a h = absurd (ground arith)
matches-all (p ∷ ps) (c ∷ s) (a, later) h = ground (arith, a c, matches-all ps s later)

-- A UUID of version 4, the canonical form of a tenant's id, always passes the policy.
pub is_uuid_v4-is_safe_ident :
    (s : Text) → is_uuid_v4 s ≡ true → assert_safe_identifier s ≡ returned tt
unfolding is_uuid_v4 assert_safe_identifier
is_uuid_v4-is_safe_ident s h = ground (arith, matches-all uuid_v4_pattern s pattern-Allowed)

-- What PostgreSQL keeps of an identifier: its first 63 bytes.
abbrev pub name_data_len : ℕ
name_data_len = 64

schema_name_of_allowed :
    (prefix stem : Text) (c : ℕ)
    → length stem ≡ 62
    → All IdentChar stem
    → IdentChar c
    → schema_name prefix (stem ++ c ∷ []) ≡ returned ((prefix ++ stem) ++ c ∷ [])
unfolding schema_name
schema_name_of_allowed prefix stem c len ok allowed =
    let size : length (stem ++ c ∷ []) ≡ 63 = omega (arith, length-append stem (c ∷ [])) in
    let passes : assert_safe_identifier (stem ++ c ∷ []) ≡ returned tt =
      (assert_safe_identifier_iff (stem ++ c ∷ [])).0.1
        (omega arith, omega arith, All-append IdentChar stem (c ∷ []) ok (allowed, tt)) in
    rw (passes, schema_name, append_assoc prefix stem (c ∷ []))

some_injective : (a b : ℕ) → some a ≡ some b → a ≡ b
some_injective a b same = cc

last-ne : (xs : Text) (a b : ℕ) → a ≢ b → xs ++ a ∷ [] ≢ xs ++ b ∷ []
last-ne xs a b ne same = ne (
    some_injective _ _ (
      sym (get_elem?-append xs a [])
      ∙ ap (λ l. get_elem? l (length xs)) same
      ∙ get_elem?-append xs b []))

-- The limit of the policy is on the id, not on the name made of prefix and id: for every prefix
-- that is not empty, and every stem of 62 allowed code units, two ids that differ in the last code
-- unit both pass, and the first 63 code units of their schema names agree.
pub schema_name_clash :
    (prefix stem : Text) (p a b : ℕ)
    → length stem ≡ 62
    → All IdentChar stem
    → IdentChar a
    → IdentChar b
    → a ≢ b
    → (x y : Text) × (schema_name (p ∷ prefix) (stem ++ a ∷ []) ≡ returned x)
      × (schema_name (p ∷ prefix) (stem ++ b ∷ []) ≡ returned y)
      × (x ≢ y)
      × (take (name_data_len - 1) x ≡ take (name_data_len - 1) y)
schema_name_clash prefix stem p a b len ok ha hb ne =
    let full = (p ∷ prefix) ++ stem in
    let long : 63 ≤ length full = omega (arith, length-append (p ∷ prefix) stem) in
    (
      full ++ a ∷ [],
      full ++ b ∷ [],
      schema_name_of_allowed (p ∷ prefix) stem a len ok ha,
      schema_name_of_allowed (p ∷ prefix) stem b len ok hb,
      last-ne full a b ne,
      take-append 63 full (a ∷ []) long ∙ sym (take-append 63 full (b ∷ []) long),
    )

name-after_assert :
    (r : Outcome IdentifierError (Unit {0})) (s name : Text)
    → after_assert r s ≡ returned name
    → s ≡ name
name-after_assert (returned u) s name e = cc
name-after_assert (thrown e') s name e = absurd cc

long_enough :
    (id : Text) (r : Outcome IdentifierError (Unit {0})) (s name : Text)
    → assert_safe_identifier id ≡ r
    → after_assert r s ≡ returned name
    → 1 ≤ length id
long_enough id (returned u) s name p e = ((assert_safe_identifier_iff id).0.0 p).0
long_enough id (thrown e') s name p e = absurd cc

-- A name made from a valid id is not empty.
pub schema_name-nonempty :
    (prefix id name : Text) → schema_name prefix id ≡ returned name → name ≢ []
unfolding schema_name
schema_name-nonempty prefix id name e none_left =
    let made = name-after_assert (assert_safe_identifier id) (prefix ++ id) name e in
    let long = long_enough id (assert_safe_identifier id) (prefix ++ id) name refl e in
    omega (arith, length-append prefix id, ap length made, ap length none_left, long)
