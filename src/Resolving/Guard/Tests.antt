-- ===== src/Resolving/Guard/Tests.antt =====
-- The guard on concrete requests, and a witness.
use adonisjs_lasagna_multite.Prelude.{
  ℕ, String, ◌≡◌, refl, Bool, true, false, none, some, List, [], ◌∷◌, Option, Text, codes, list_eq,
}
use adonisjs_lasagna_multite.Prelude.Effects.{returned, thrown, Effect}
use adonisjs_lasagna_multite.Tenancy.Context.{World, with_store}
use adonisjs_lasagna_multite.Resolving.Guard.{TenantView, failed, is_ignored, lift, handle}
use adonisjs_lasagna_multite.Resolving.Guard.Admission.{Guarded, handle-Guarded}

abbrev active : TenantView
active = record {
  id = "a";
  is_suspended = false;
  is_deleted = false;
  is_provisioning = false;
  is_failed = false;
  is_maintenance = false;
  maintenance_message = none;
}

abbrev world : World ℕ
world = record { store = none; cached = true; outer = 0 }

abbrev no_header : String → Option String
no_header name = none

abbrev closed : String → World ℕ → Bool
closed id w = false

abbrev found : Effect (World ℕ) (Unit {0}) TenantView
found w = (returned active, w)

-- the rest of the request: it answers with the store
abbrev answer_store : Effect (World ℕ) (Unit {0}) (Option String)
answer_store w = (returned w.store, w)

abbrev health : List Text
health = codes "/health" ∷ []

handle_tests :
    (handle no_header none closed health (codes "/posts?x=1") found answer_store world
      ≡ (returned (some "a"), world))
    × (handle no_header none closed health (codes "/health/live?x=1") found answer_store world
        ≡ (returned none, world))
    × (handle no_header none closed health (codes "/healthy") found answer_store world
        ≡ (returned (some "a"), world))
unfolding handle with_store
handle_tests = (refl, refl, refl)

handle-Guarded_example :
    (is_ignored health (codes "/posts") ≡ true
      → handle no_header none closed health (codes "/posts") found answer_store world
        ≡ lift answer_store world)
    × (is_ignored health (codes "/posts") ≡ false
        → ((e : Unit {0}) (w' : World ℕ)
            → found world ≡ (thrown e, w')
            → handle no_header none closed health (codes "/posts") found answer_store world
              ≡ (thrown (failed e), w'))
          × ((t : TenantView) (w' : World ℕ)
              → found world ≡ (returned t, w')
              → Guarded no_header none closed answer_store t w'
                  (handle no_header none closed health (codes "/posts") found answer_store world)))
handle-Guarded_example =
    handle-Guarded no_header none closed health (codes "/posts") found answer_store world
