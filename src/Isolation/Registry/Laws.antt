-- ===== src/Isolation/Registry/Laws.antt =====
-- The active driver of src/services/isolation/registry.ts.
use adonisjs_lasagna_multite.Prelude.{
  String, ◌≡◌, ◌≢◌, refl, Bool, false, not, ◌||◌, Option, none, some, ◌==◌, string_eq, Bool-cases,
  Option-cases, inl, inr, subst, beq_refl, beq_ne,
}
use adonisjs_lasagna_multite.Prelude.Maps.{JsMap, lookup, insert, lookup-insert}
use adonisjs_lasagna_multite.Prelude.Maps.Laws.{has_key_of_none, has_key_of_some}
use adonisjs_lasagna_multite.Prelude.Effects.{Outcome, returned, thrown}
use adonisjs_lasagna_multite.Isolation.Registry.{
  Driver, Registry, RegistryError, not_registered, no_active_driver, truthy, empty, register,
  use_driver, active, get, has, clear,
}

module _ {D : Type 0} where
  -- The active name, if there is one, is registered.
  abbrev pub IsActiveKnown : JsMap String (Driver D) → Option String → Type 0
  IsActiveKnown m none = Unit
  IsActiveKnown m (some name) = (d : Driver D) × (lookup name m ≡ some d)

  abbrev pub IsValid : Registry D → Type 0
  IsValid r = IsActiveKnown r.drivers r.active_name

  known-insert :
      (d : Driver D) (m : JsMap String (Driver D)) (o : Option String)
      → IsActiveKnown m o
      → IsActiveKnown (insert d.name d m) o
  known-insert d m none v = tt
  known-insert d m (some name) (d', found) = elim (Bool-cases (d.name == name)) [
    | inl same ↦ (d, rw (lookup-insert d.name name d m, same))
    | inr other ↦ (d', rw (lookup-insert d.name name d m, other) found)
  ]

  -- `register` keeps a valid registry valid.
  register-IsValid :
      (d : Driver D) (activate : Bool) (r : Registry D)
      → IsValid r
      → IsValid (register d activate r)
  unfolding register
  register-IsValid d activate r v = elim (Bool-cases (activate || not (truthy r.active_name))) [
    | inl taken ↦ rw taken (d, rw (lookup-insert d.name d.name d r.drivers, beq_refl d.name))
    | inr kept ↦ rw kept (known-insert d r.drivers r.active_name v)
  ]

  -- How a call of `use` ends.
  abbrev pub Used : String → Registry D → Outcome RegistryError (Registry D) → Type 0
  Used name r (thrown e) = (has name r ≡ false) × (e ≡ not_registered name)
  Used name r (returned r') =
      (d : Driver D) × (get name r ≡ some d) × IsValid r' × (active r' ≡ returned d)

  -- `use` with a name that is not empty either throws, exactly for a name that is not registered,
  -- or makes the driver of that name the active one, and the registry is valid again.
  pub use_driver-Used :
      (name : String) (r : Registry D) → name ≢ "" → Used name r (use_driver name r)
  unfolding use_driver has get active
  use_driver-Used name r ne = elim (Option-cases (lookup name r.drivers)) [
    | inl missing ↦ let absent = has_key_of_none name r.drivers missing in rw absent (absent, refl)
    | inr (d, found) ↦
        rw (has_key_of_some name r.drivers found) (d, found, (d, found), rw (beq_ne ne, found))
  ]

  -- A registry that a program builds from the empty one.
  pub data Built : Registry D → Type 0 where
    start : Built empty
    registered : {r : Registry D} (d : Driver D) (b : Bool) → Built r → Built (register d b r)
    used :
        {r r' : Registry D} (name : String) → Built r → use_driver name r ≡ returned r' → Built r'
    cleared : {r : Registry D} → Built r → Built (clear r)

  abbrev IsValidIfReturned : Outcome RegistryError (Registry D) → Type 0
  IsValidIfReturned (thrown e) = Unit
  IsValidIfReturned (returned r') = IsValid r'

  use_driver-IsValid : (name : String) (r : Registry D) → IsValidIfReturned (use_driver name r)
  unfolding use_driver
  use_driver-IsValid name r = elim (Option-cases (lookup name r.drivers)) [
    | inl missing ↦ rw (has_key_of_none name r.drivers missing) tt
    | inr (d, found) ↦ rw (has_key_of_some name r.drivers found) (d, found)
  ]

  Built-IsValid : {r : Registry D} → Built r → IsValid r
  unfolding clear
  Built-IsValid start = tt
  Built-IsValid (registered {r} d b h) = register-IsValid d b r (Built-IsValid h)
  Built-IsValid (used {r} name h e) = subst IsValidIfReturned e (use_driver-IsValid name r)
  Built-IsValid (cleared h) = tt

  -- What `active` may give: the driver registered under the active name, or the error that there
  -- is no active name. That an active driver has been unregistered never comes up.
  abbrev pub Activated : Registry D → Outcome RegistryError (Driver D) → Type 0
  Activated r (thrown e) = (truthy r.active_name ≡ false) × (e ≡ no_active_driver)
  Activated r (returned d) = (name : String) × (r.active_name ≡ some name) × (get name r ≡ some d)

  active_lem :
      (m : JsMap String (Driver D)) (o : Option String)
      → IsActiveKnown m o
      → let r : Registry D = record { drivers = m; active_name = o } in Activated r (active r)
  unfolding active get
  active_lem m none v = (refl, refl)
  active_lem m (some name) (d, found) = elim (Bool-cases (name == "")) [
    | inl blank ↦ rw blank (rw blank refl, refl)
    | inr named ↦ rw (named, found) (name, refl, found)
  ]

  -- In every registry that the operations build, `active` gives the driver registered under the
  -- active name, or throws that there is none; its third branch, that the active driver was
  -- unregistered, is never taken.
  pub active-Activated : {r : Registry D} → Built r → Activated r (active r)
  active-Activated {r} h = active_lem r.drivers r.active_name (Built-IsValid h)
