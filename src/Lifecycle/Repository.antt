-- ===== src/Lifecycle/Repository.antt =====
-- src/testing/mock_repository.ts: the repository in memory, and src/testing/builders.ts: the tenants
-- it creates. A new id and the time are arguments; times are milliseconds.
pub mod Visibility
pub mod Refinement
mod Tests
use adonisjs_lasagna_multite.Prelude.{
  ℕ, Bool, true, false, ◌&&◌, ◌||◌, not, Option, none, some, List, [], ◌∷◌, ◌++◌, length, take, any,
  filter, if◌then◌else◌, or_default, ◌==◌, list_eq, Text, codes,
}
use adonisjs_lasagna_multite.Prelude.Maps.{JsMap, lookup, insert, values}
use adonisjs_lasagna_multite.Prelude.Effects.{Outcome, returned, thrown, Effect, pure, ◌>>◌}

pub data Status : Type 0 where
  provisioning active suspended failed deleted : Status

abbrev pub same_status : Status → Status → Bool
same_status provisioning provisioning = true
same_status active active = true
same_status suspended suspended = true
same_status failed failed = true
same_status deleted deleted = true
same_status _ _ = false

-- `TenantModelContract`, less its metadata
pub record Tenant : Type 0 where
  pub id : Text
  pub name : Text
  pub email : Text
  pub status : Status
  pub custom_domain : Option Text
  pub created_at : ℕ
  pub deleted_at : Option ℕ

-- `isDeleted`
abbrev pub is_deleted : Tenant → Bool
is_deleted t = elim t.deleted_at [ none ↦ false | some _ ↦ true ]

abbrev pub Repository : Type 0
Repository = JsMap Text Tenant

pub record NotFound : Type 0 where
  pub id : Text

-- the options of `all` and `each`
pub record Shown : Type 0 where
  pub include_deleted : Bool
  pub statuses : Option (List Status)

-- `new MockTenantRepository(initial)`
pub from_initial : List Tenant → Repository → Repository
from_initial [] r = r
from_initial (t ∷ ts) r = from_initial ts (insert t.id t r)

pub add : Tenant → Repository → Repository
add t r = insert t.id t r

pub clear : Repository → Repository
clear r = []

pub count : Repository → ℕ
count r = length r

abbrev pub unless_deleted : Bool → Option Tenant → Option Tenant
unless_deleted include_deleted none = none
unless_deleted include_deleted (some t) =
    if not include_deleted && is_deleted t then none else some t

unfoldable pub find_by_id : Text → Bool → Repository → Option Tenant
find_by_id id include_deleted r = unless_deleted include_deleted (lookup id r)

abbrev pub or_fail : Text → Option Tenant → Outcome NotFound Tenant
or_fail id none = thrown (record { id = id })
or_fail id (some t) = returned t

unfoldable pub find_by_id_or_fail : Text → Bool → Repository → Outcome NotFound Tenant
unfolding find_by_id
find_by_id_or_fail id include_deleted r = or_fail id (find_by_id id include_deleted r)

abbrev pub has_domain : Text → Option Text → Bool
has_domain domain none = false
has_domain domain (some d) = d == domain

abbrev pub first_with_domain : Text → List Tenant → Option Tenant
first_with_domain domain [] = none
first_with_domain domain (t ∷ ts) =
    let rest = first_with_domain domain ts in
    if not (is_deleted t) && has_domain domain t.custom_domain then some t else rest

pub find_by_domain : Text → Repository → Option Tenant
find_by_domain domain r = first_with_domain domain (values r)

abbrev pub has_status : Option (List Status) → Status → Bool
has_status none status = true
has_status (some statuses) status = any (same_status status) statuses

abbrev pub is_shown : Shown → Tenant → Bool
is_shown options t =
    if not options.include_deleted && is_deleted t
    then false
    else has_status options.statuses t.status

-- `all`
unfoldable pub all_tenants : Shown → Repository → List Tenant
all_tenants options r = filter (is_shown options) (values r)

abbrev pub is_wanted : List Text → Bool → Tenant → Bool
is_wanted ids include_deleted t =
    if not (any (λ id. id == t.id) ids) then false else not (not include_deleted && is_deleted t)

pub where_in : List Text → Bool → Repository → List Tenant
where_in ids include_deleted r = filter (is_wanted ids include_deleted) (values r)

-- `BuildTestTenantOverrides`, less its metadata
pub record Overrides : Type 0 where
  pub id : Option Text
  pub name : Option Text
  pub email : Option Text
  pub status : Option Status
  pub custom_domain : Option Text
  pub created_at : Option ℕ
  pub deleted_at : Option ℕ

-- `buildTestTenant`, where `fresh` is the random id
pub build_test_tenant : Text → ℕ → Overrides → Tenant
build_test_tenant fresh now overrides =
    let id = or_default overrides.id fresh in
    record {
      id = id;
      name = or_default overrides.name (codes "Test Tenant " ++ take 8 id);
      email = or_default overrides.email (codes "test-" ++ (take 8 id ++ codes "@fixture.test"));
      status = or_default overrides.status active;
      custom_domain = overrides.custom_domain;
      created_at = or_default overrides.created_at now;
      deleted_at = overrides.deleted_at;
    }

pub create : Text → ℕ → Text → Text → Status → Repository → Tenant × Repository
unfolding build_test_tenant
create fresh now name email status r =
    let tenant = build_test_tenant fresh now (record {
      id = none;
      name = some name;
      email = some email;
      status = some status;
      custom_domain = none;
      created_at = none;
      deleted_at = none;
    }) in
    (tenant, insert tenant.id tenant r)

module _ {W E : Type 0} (callback : Tenant → Effect W E (Unit {0})) where
  abbrev pub call_each : List Tenant → Effect W E (Unit {0})
  call_each [] = pure tt
  call_each (t ∷ ts) = callback t >> call_each ts

  -- `each`; the callback does not change the repository
  pub each : Shown → Repository → Effect W E (Unit {0})
  unfolding all_tenants
  each options r = call_each (all_tenants options r)
