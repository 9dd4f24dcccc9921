-- ===== src/Isolation/Identifier/Tests.antt =====
-- The identifier policy at concrete values, and witnesses.
use adonisjs_lasagna_multite.Prelude.{
  ◌-◌, ◌≤◌, ◌≡◌, ◌≢◌, ◌↔◌, refl, false, true, [], ◌∷◌, ◌++◌, All, length, take, Text, codes, arith,
}
use adonisjs_lasagna_multite.Prelude.Effects.{returned, thrown}
use adonisjs_lasagna_multite.Isolation.Identifier.{
  is_uuid_v4, is_safe_ident, unsafe_identifier, assert_safe_identifier, schema_name,
}
use adonisjs_lasagna_multite.Isolation.Identifier.Laws.{
  IdentChar, assert_safe_identifier_iff, name_data_len, schema_name_clash,
}

abbrev some_uuid : Text
some_uuid = codes "3F2504e0-4f89-41d3-9a0c-0305e82c3301"

uuid_tests :
    (is_uuid_v4 some_uuid ≡ true)
    × (is_uuid_v4 (codes "3f2504e0-4f89-31d3-9a0c-0305e82c3301") ≡ false)
    × (is_safe_ident (codes "a\"b") ≡ false)
unfolding is_uuid_v4 is_safe_ident
uuid_tests = (refl, refl, refl)

assert_safe_identifier_iff_example :
    ((assert_safe_identifier (codes "a\"b") ≡ returned tt)
      ↔ ((1 ≤ length (codes "a\"b")) × (length (codes "a\"b") ≤ 63) × All IdentChar (codes "a\"b")))
    × ((is_safe_ident (codes "a\"b") ≡ false)
        ↔ (assert_safe_identifier (codes "a\"b") ≡ thrown (unsafe_identifier (codes "a\"b"))))
assert_safe_identifier_iff_example = assert_safe_identifier_iff (codes "a\"b")

abbrev stem : Text
stem = codes "aaaaaaaaaaaaaaaaaaaaaaaaaaaaaaaaaaaaaaaaaaaaaaaaaaaaaaaaaaaaaa"

schema_name_clash_example :
    (x y : Text) × (schema_name (codes "tenant_") (stem ++ b'a' ∷ []) ≡ returned x)
    × (schema_name (codes "tenant_") (stem ++ b'b' ∷ []) ≡ returned y)
    × (x ≢ y)
    × (take (name_data_len - 1) x ≡ take (name_data_len - 1) y)
schema_name_clash_example =
    schema_name_clash (codes "enant_") stem b't' b'a' b'b' refl (omega arith) (omega arith)
      (omega arith) (omega arith)
