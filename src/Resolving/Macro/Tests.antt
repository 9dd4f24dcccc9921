-- ===== src/Resolving/Macro/Tests.antt =====
-- `request.tenant()` with services in a world that counts the calls, and a witness.
use adonisjs_lasagna_multite.Prelude.{ℕ, suc, ◌≡◌, refl, none, some, codes}
use adonisjs_lasagna_multite.Prelude.Effects.{returned}
use adonisjs_lasagna_multite.Resolving.Builtins.{domain}
use adonisjs_lasagna_multite.Resolving.Macro.{Services, RequestWorld, tenant}
use adonisjs_lasagna_multite.Resolving.Macro.Memo.{Memoized, tenant-Memoized}

abbrev services : Services ℕ (Unit {0}) ℕ
services = record {
  resolve_tenant = λ w. (returned (some (domain (codes "a.org"))), suc w);
  find_by_id = λ i deleted w. (returned none, suc w);
  find_by_domain = λ d w. (returned (some 7), suc w);
  connect = λ t w. (returned tt, suc w);
}

abbrev unresolved : RequestWorld ℕ ℕ
unresolved = record { memo = none; outer = 0 }

abbrev resolved : RequestWorld ℕ ℕ
resolved = record { memo = some 7; outer = 3 }

tenant-Memoized_example :
    Memoized none (tenant services unresolved)
    × ((t : ℕ) (w' : RequestWorld ℕ ℕ)
        → tenant services unresolved ≡ (returned t, w')
        → tenant services w' ≡ (returned t, w'))
tenant-Memoized_example = tenant-Memoized services unresolved

tenant_tests :
    (tenant services unresolved ≡ (returned 7, resolved))
    × (tenant services resolved ≡ (returned 7, resolved))
unfolding tenant
tenant_tests = (refl, refl)
