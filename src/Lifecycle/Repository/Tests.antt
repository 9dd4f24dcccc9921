-- ===== src/Lifecycle/Repository/Tests.antt =====
-- Tests and witnesses for src/testing/mock_repository.ts and src/testing/builders.ts.
use adonisjs_lasagna_multite.Prelude.{◌≡◌, refl, true, false, none, some, [], ◌∷◌, codes}
use adonisjs_lasagna_multite.Prelude.Effects.{thrown}
use adonisjs_lasagna_multite.Lifecycle.Repository.{
  Tenant, suspended, Repository, Overrides, build_test_tenant, from_initial, find_by_id,
  find_by_id_or_fail, find_by_domain, all_tenants, where_in, count,
}
use adonisjs_lasagna_multite.Lifecycle.Repository.Refinement.{
  added, created, apply_each, meant_each, meant_initial, Answers, apply_each-Answers,
}

abbrev no_overrides : Overrides
no_overrides = record {
  id = none;
  name = none;
  email = none;
  status = none;
  custom_domain = none;
  created_at = none;
  deleted_at = none;
}

abbrev acme : Tenant
acme =
    build_test_tenant (codes "0123456789") 5
      (record no_overrides { custom_domain = some (codes "acme.org") })

abbrev gone : Tenant
gone = build_test_tenant (codes "b") 6 (record no_overrides { deleted_at = some 7 })

abbrev held : Repository
held = from_initial (acme ∷ gone ∷ []) []

repository_tests :
    (acme.name ≡ codes "Test Tenant 01234567")
    × (find_by_id (codes "b") false held ≡ none)
    × (find_by_id (codes "b") true held ≡ some gone)
    × (find_by_id_or_fail (codes "c") true held ≡ thrown (record { id = codes "c" }))
    × (find_by_domain (codes "acme.org") held ≡ some acme)
    × (all_tenants (record { include_deleted = true; statuses = some (suspended ∷ []) }) held ≡ [])
    × (where_in (codes "b" ∷ codes "0123456789" ∷ []) true held ≡ acme ∷ gone ∷ [])
    × (count held ≡ 2)
unfolding build_test_tenant from_initial find_by_id find_by_id_or_fail find_by_domain all_tenants
    where_in count
repository_tests = (refl, refl, refl, refl, refl, refl, refl, refl)

apply_each-Answers_example :
    Answers
      (apply_each
        (added gone
          ∷ created (codes "d") 8 (codes "Dee") (codes "d@d.org") suspended
          ∷ added acme
          ∷ [])
        (from_initial (acme ∷ []) []))
      (meant_each
        (added gone
          ∷ created (codes "d") 8 (codes "Dee") (codes "d@d.org") suspended
          ∷ added acme
          ∷ [])
        (meant_initial (acme ∷ []) (λ id. none)))
apply_each-Answers_example =
    apply_each-Answers (acme ∷ []) (
      added gone
      ∷ created (codes "d") 8 (codes "Dee") (codes "d@d.org") suspended
      ∷ added acme
      ∷ [])
