-- ===== src/Tenancy/Bootstrap/Tests.antt =====
-- Runs of the registry in a world that records the calls, and witnesses.
use adonisjs_lasagna_multite.Prelude.{ℕ, String, ◌≡◌, refl, some, List, [], ◌∷◌, ◌++◌, string_eq}
use adonisjs_lasagna_multite.Prelude.Effects.{returned, thrown, Effect}
use adonisjs_lasagna_multite.Prelude.Maps.{values}
use adonisjs_lasagna_multite.Tenancy.Bootstrap.{Bootstrapper, Registry, empty, register, run_scoped}
use adonisjs_lasagna_multite.Tenancy.Bootstrap.Invariant.{
  IsValid, Built, start, registered, Built-IsValid,
}
use adonisjs_lasagna_multite.Tenancy.Bootstrap.Nesting.{nested, run_scoped-nested}

-- The world is the list of the calls made; an error is a text.
abbrev Log : Type 0
Log = List String

abbrev call : String → Effect Log String (Unit {0})
call what log = (returned tt, log ++ what ∷ [])

abbrev fail : String → Effect Log String (Unit {0})
fail what log = (thrown what, log ++ what ∷ [])

abbrev cache : Bootstrapper Log String (Unit {0})
cache = record { name = "cache"; enter = λ _. call "+cache"; leave = some (λ _. fail "-cache") }

abbrev drive : Bootstrapper Log String (Unit {0})
drive = record { name = "drive"; enter = λ _. call "+drive"; leave = some (λ _. call "-drive") }

abbrev mail : Bootstrapper Log String (Unit {0})
mail = record { name = "mail"; enter = λ _. fail "+mail"; leave = some (λ _. call "-mail") }

abbrev log_failure : String → String → Log → Log
log_failure name e log = log ++ "logged" ∷ []

abbrev two : Registry Log String (Unit {0})
two = record { items = ("cache", cache) ∷ ("drive", drive) ∷ []; order = "cache" ∷ "drive" ∷ [] }

abbrev three : Registry Log String (Unit {0})
three = record {
  items = ("cache", cache) ∷ ("drive", drive) ∷ ("mail", mail) ∷ [];
  order = "cache" ∷ "drive" ∷ "mail" ∷ [];
}

abbrev body : Effect Log String ℕ
body log = (returned 7, log ++ "fn" ∷ [])

scoped_run :
    run_scoped log_failure two tt body []
    ≡ (returned 7, "+cache" ∷ "+drive" ∷ "fn" ∷ "-drive" ∷ "-cache" ∷ "logged" ∷ [])
unfolding run_scoped
scoped_run = refl

scoped_failing_enter :
    run_scoped log_failure three tt body []
    ≡ (thrown "+mail", "+cache" ∷ "+drive" ∷ "+mail" ∷ "-drive" ∷ "-cache" ∷ "logged" ∷ [])
unfolding run_scoped
scoped_failing_enter = refl

two-Built : Built two
unfolding register
two-Built =
    registered {r = record { items = ("cache", cache) ∷ []; order = "cache" ∷ [] }} drive
      (registered {r = empty} cache start refl) refl

two-IsValid : IsValid two
two-IsValid = Built-IsValid two-Built

Built-IsValid_example : IsValid two
Built-IsValid_example = Built-IsValid two-Built

run_scoped-nested_example :
    run_scoped log_failure two tt body [] ≡ nested log_failure tt (values two.items) body []
run_scoped-nested_example = run_scoped-nested log_failure tt two body two-IsValid []
