-- ===== src/Isolation/Identifier.antt =====
-- src/services/isolation/identifier.ts: the policy for ids that go into DDL; and `schemaName` of
-- src/services/isolation/schema_pg_driver.ts, which puts the configured prefix before an id.
pub mod Laws
mod Tests
use adonisjs_lasagna_multite.Prelude.{
  ℕ, Bool, true, false, ◌&&◌, ◌||◌, List, [], ◌∷◌, ◌++◌, length, all, leb, nat_beq, if◌then◌else◌,
  Text, matches, is_digit, is_alphanumeric,
}
use adonisjs_lasagna_multite.Prelude.Effects.{Outcome, returned, thrown}

-- `[0-9a-f]` under the flag `i`
pub is_hex : ℕ → Bool
is_hex c = is_digit c || (leb b'a' c && leb c b'f') || (leb b'A' c && leb c b'F')

-- `[89ab]` under the flag `i`
pub is_variant : ℕ → Bool
is_variant c =
    nat_beq c b'8'
    || nat_beq c b'9'
    || nat_beq c b'a'
    || nat_beq c b'b'
    || nat_beq c b'A'
    || nat_beq c b'B'

-- a class `[…]{n}`, then the rest
abbrev pub times : ℕ → (ℕ → Bool) → List (ℕ → Bool) → List (ℕ → Bool)
times ℕ.zero p rest = rest
times (ℕ.suc n) p rest = p ∷ times n p rest

abbrev pub literal : ℕ → ℕ → Bool
literal d c = nat_beq c d

abbrev pub uuid_v4_pattern : List (ℕ → Bool)
uuid_v4_pattern = times 8 is_hex (
    literal b'-'
    ∷ times 4 is_hex (
        literal b'-'
        ∷ literal b'4'
        ∷ times 3 is_hex
            (literal b'-' ∷ is_variant ∷ times 3 is_hex (literal b'-' ∷ times 12 is_hex []))))

-- `UUID_V4.test(value)`
pub is_uuid_v4 : Text → Bool
unfolding is_hex is_variant
is_uuid_v4 value = matches uuid_v4_pattern value

-- `[a-zA-Z0-9_-]`
unfoldable pub is_ident_char : ℕ → Bool
is_ident_char c = is_alphanumeric c || nat_beq c b'_' || nat_beq c b'-'

-- `SAFE_IDENT.test(value)`
unfoldable pub is_safe_ident : Text → Bool
unfolding is_ident_char
is_safe_ident value = leb 1 (length value) && leb (length value) 63 && all is_ident_char value

pub data IdentifierError : Type 0 where
  unsafe_identifier : Text → IdentifierError

unfoldable pub assert_safe_identifier : Text → Outcome IdentifierError (Unit {0})
unfolding is_safe_ident
assert_safe_identifier value =
    if is_safe_ident value then returned tt else thrown (unsafe_identifier value)

abbrev pub after_assert : Outcome IdentifierError (Unit {0}) → Text → Outcome IdentifierError Text
after_assert (returned _) name = returned name
after_assert (thrown e) name = thrown e

-- `SchemaPgDriver.schemaName` of a tenant's id
unfoldable pub schema_name : Text → Text → Outcome IdentifierError Text
schema_name prefix id = after_assert (assert_safe_identifier id) (prefix ++ id)
