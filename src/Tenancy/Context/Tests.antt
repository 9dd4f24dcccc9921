-- ===== src/Tenancy/Context/Tests.antt =====
-- Runs of `tenancy.run`, and witnesses.
use adonisjs_lasagna_multite.Prelude.{
  ℕ, String, ◌≡◌, refl, ap, Option, none, some, false, [], ◌∷◌, ◌⊎◌, inl, inr,
}
use adonisjs_lasagna_multite.Prelude.Effects.{Outcome, returned, thrown, Effect}
use adonisjs_lasagna_multite.Tenancy.Bootstrap.{Bootstrapper, Registry, register, run_scoped}
use adonisjs_lasagna_multite.Tenancy.Bootstrap.Invariant.{IsValid, start, registered, Built-IsValid}
use adonisjs_lasagna_multite.Tenancy.Context.{World, Tenant, run, current_id}
use adonisjs_lasagna_multite.Tenancy.Context.Scope.{run-current_id, run-store}

abbrev touch : Bootstrapper (World ℕ) String Tenant
touch = record { name = "touch"; enter = λ _ w. (returned tt, w); leave = none }

abbrev registry : Registry (World ℕ) String Tenant
registry = record { items = ("touch", touch) ∷ []; order = "touch" ∷ [] }

registry-IsValid : IsValid registry
unfolding register
registry-IsValid = Built-IsValid (registered touch start refl)

abbrev drop_error : String → String → World ℕ → World ℕ
drop_error name e w = w

abbrev outside : World ℕ
outside = record { store = some "outer"; cached = false; outer = 0 }

abbrev ask : Effect (World ℕ) String (Option String)
unfolding current_id
ask w = (returned (current_id w), w)

abbrev acme : Tenant
acme = record { id = "acme" }

ask_inside : (run drop_error registry acme ask outside).0 ≡ returned (some "acme")
unfolding run ask run_scoped
ask_inside = refl

abbrev Answers : Outcome String (Option String) → Type 0
Answers o = (o ≡ returned (some "acme")) ⊎ ((e : String) × (o ≡ thrown e))

run-current_id_example : Answers (run drop_error registry acme ask outside).0
unfolding ask
run-current_id_example =
    run-current_id drop_error registry acme ask Answers outside registry-IsValid ((λ w a. a), tt)
      (λ v e. inl (ap returned e)) (λ e. inr (e, refl))

run-store_example : (run drop_error registry acme ask outside).1.store ≡ some "outer"
run-store_example = run-store drop_error registry acme ask outside
