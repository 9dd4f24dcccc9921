-- ===== src/Isolation/Registry/Tests.antt =====
-- Runs of the driver registry, and witnesses.
use adonisjs_lasagna_multite.Prelude.{ℕ, String, ◌≡◌, refl, false, arith, ◌≢◌, string_eq}
use text.Mathlib.TextEquality.{eq_iff}
use adonisjs_lasagna_multite.Prelude.Effects.{returned, thrown}
use adonisjs_lasagna_multite.Isolation.Registry.{
  Driver, Registry, not_registered, no_active_driver, empty, register, use_driver, active,
}
use adonisjs_lasagna_multite.Isolation.Registry.Laws.{Built, start, registered}

abbrev schema : Driver ℕ
schema = record { name = "schema-pg"; operations = 1 }

abbrev rowscope : Driver ℕ
rowscope = record { name = "rowscope-pg"; operations = 2 }

both : Registry ℕ
unfolding register
both = register rowscope false (register schema false empty)

active_first : active both ≡ returned schema
unfolding active both
active_first = refl

active_none : active {D = ℕ} empty ≡ thrown no_active_driver
unfolding active
active_none = refl

use_unknown : use_driver "sqlite" both ≡ thrown (not_registered "sqlite")
unfolding use_driver both
use_unknown = refl

rowscope_named : ◌≢◌ {A = String} "rowscope-pg" ""
rowscope_named = ground (arith, eq_iff "rowscope-pg" "")

both-Built : Built both
unfolding both
both-Built = registered rowscope false (registered schema false start)
