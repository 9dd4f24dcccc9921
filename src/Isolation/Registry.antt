-- ===== src/Isolation/Registry.antt =====
-- src/services/isolation/registry.ts: the registry of isolation drivers and the active one. A
-- driver's operations are left open; the registry reads only its name.
pub mod Laws
mod Tests
use adonisjs_lasagna_multite.Prelude.{
  String, Bool, true, false, not, ◌||◌, Option, none, some, List, [], ◌∷◌, if◌then◌else◌, ◌==◌,
  string_eq,
}
use adonisjs_lasagna_multite.Prelude.Maps.{JsMap, lookup, has_key, insert, keys}
use adonisjs_lasagna_multite.Prelude.Effects.{Outcome, returned, thrown}

module _ (D : Type 0) where
  pub record Driver : Type 0 where
    pub name : String
    pub operations : D

  pub record Registry : Type 0 where
    pub drivers : JsMap String Driver
    pub active_name : Option String

pub data RegistryError : Type 0 where
  not_registered : String → RegistryError
  no_active_driver : RegistryError
  active_unregistered : String → RegistryError

-- A name as a condition: `undefined` and the empty text are falsy.
abbrev pub truthy : Option String → Bool
truthy none = false
truthy (some s) = not (s == "")

module _ {D : Type 0} where
  abbrev pub empty : Registry D
  empty = record { drivers = []; active_name = none }

  -- `register(driver, { activate })`
  pub register : Driver D → Bool → Registry D → Registry D
  register d activate r = record {
    drivers = insert d.name d r.drivers;
    active_name = if activate || not (truthy r.active_name) then some d.name else r.active_name;
  }

  -- `use`
  pub use_driver : String → Registry D → Outcome RegistryError (Registry D)
  use_driver name r =
      if not (has_key name r.drivers)
      then thrown (not_registered name)
      else returned (record r { active_name = some name })

  pub active : Registry D → Outcome RegistryError (Driver D)
  active r = elim r.active_name [
    | none ↦ thrown no_active_driver
    | some name ↦ if name == "" then thrown no_active_driver else elim (lookup name r.drivers) [
      | none ↦ thrown (active_unregistered name)
      | some d ↦ returned d
    ]
  ]

  pub get : String → Registry D → Option (Driver D)
  get name r = lookup name r.drivers

  pub has : String → Registry D → Bool
  has name r = has_key name r.drivers

  pub list : Registry D → List String
  list r = keys r.drivers

  pub clear : Registry D → Registry D
  clear r = empty
