-- ===== src/Tenancy/Bootstrap.antt =====
-- src/services/bootstrapper_registry.ts: the registry of bootstrappers, its enter and leave loops.
-- A bootstrapper's callbacks are arbitrary calls in a world `W` that may throw an `E`; they do not
-- change the registry. `log_failure` stands for the logger that `#logLeaveFailure` falls back on.
pub mod Invariant
pub mod Nesting
pub mod Tests
use Prim.Native.Nat.{min}
use adonisjs_lasagna_multite.Prelude.{
  ℕ, zero, suc, String, Bool, true, false, Option, none, some, List, [], ◌∷◌, ◌++◌, length,
  get_elem?, if◌then◌else◌, string_eq,
}
use adonisjs_lasagna_multite.Prelude.Maps.{JsMap, lookup, has_key, insert, erase, remove_first}
use adonisjs_lasagna_multite.Prelude.Effects.{Outcome, returned, thrown, Effect, pure, ◌>>=◌, ◌>>◌}

module _ (W E Ctx : Type 0) where
  pub record Bootstrapper : Type 0 where
    pub name : String
    pub enter : Ctx → Effect W E (Unit {0})
    pub leave : Option (Ctx → Effect W E (Unit {0}))

  pub record Registry : Type 0 where
    pub items : JsMap String Bootstrapper
    pub order : List String

-- What `register` throws, with the name in its message.
pub data RegistryError : Type 0 where
  already_registered : String → RegistryError

module _ {W E : Type 0} where
  abbrev pub after_enter :
      (ℕ → W → Outcome E (Unit {0}) × ℕ × W)
      → ℕ
      → Outcome E (Unit {0}) × W
      → Outcome E (Unit {0}) × ℕ × W
  after_enter rest completed (returned _, w) = rest (suc completed) w
  after_enter rest completed (thrown e, w) = (thrown e, completed, w)

  -- the `try` and `catch` around one `leave`
  abbrev pub swallow : (E → W → W) → Outcome E (Unit {0}) × W → W
  swallow log (returned _, w) = w
  swallow log (thrown e, w) = log e w

module _ {W E Ctx : Type 0} where
  abbrev pub empty : Registry W E Ctx
  empty = record { items = []; order = [] }

  unfoldable pub register :
      Bootstrapper W E Ctx → Registry W E Ctx → Outcome RegistryError (Registry W E Ctx)
  register b r =
      if has_key b.name r.items
      then thrown (already_registered b.name)
      else returned (record { items = insert b.name b r.items; order = r.order ++ b.name ∷ [] })

  -- `Map.delete` tells whether the name was there.
  pub unregister : String → Registry W E Ctx → Registry W E Ctx × Bool
  unregister name r =
      if has_key name r.items
      then (record { items = erase name r.items; order = remove_first name r.order }, true)
      else (r, false)

  pub has : Registry W E Ctx → String → Bool
  has r name = has_key name r.items

  pub list : Registry W E Ctx → List String
  list r = r.order

  pub clear : Registry W E Ctx → Registry W E Ctx
  clear r = empty

  -- `leave` of one bootstrapper that is found
  pub leave_safely : (String → E → W → W) → Ctx → Bootstrapper W E Ctx → W → W
  leave_safely log_failure ctx b w = elim b.leave [
    | none ↦ w
    | some leave ↦ swallow (log_failure b.name) (leave ctx w)
  ]

  module _ (items : JsMap String (Bootstrapper W E Ctx)) (ctx : Ctx) where
    -- the loop of `runEnter`
    pub enter_all : List String → Effect W E (Unit {0})
    enter_all [] w = (returned tt, w)
    enter_all (name ∷ names) w = elim (lookup name items) [
      | none ↦ enter_all names w
      | some b ↦ (b.enter ctx >> enter_all names) w
    ]

    -- the loop of `runScoped`; a throw leaves `completed` where it is
    pub enter_counted : List String → ℕ → W → Outcome E (Unit {0}) × ℕ × W
    enter_counted [] completed w = (returned tt, completed, w)
    enter_counted (name ∷ names) completed w = elim (lookup name items) [
      | none ↦ enter_counted names completed w
      | some b ↦ after_enter (enter_counted names) completed (b.enter ctx w)
    ]

    -- one round of `#runLeaveUpTo`: the name at a place of `order`
    pub leave_at : (String → E → W → W) → Option String → W → W
    leave_at log_failure none w = w
    leave_at log_failure (some name) w = elim (lookup name items) [
      | none ↦ w
      | some b ↦ elim b.leave [ none ↦ w | some leave ↦ swallow (log_failure name) (leave ctx w) ]
    ]

    -- the loop of `#runLeaveUpTo`, from place i - 1 down to 0
    pub leave_down : (String → E → W → W) → List String → ℕ → W → W
    leave_down log_failure order zero w = w
    leave_down log_failure order (suc i) w =
        leave_down log_failure order i (leave_at log_failure (get_elem? order i) w)

  pub run_enter : Registry W E Ctx → Ctx → Effect W E (Unit {0})
  run_enter r ctx = enter_all r.items ctx r.order

  module _ (log_failure : String → E → W → W) where
    -- `#runLeaveUpTo`
    pub run_leave_up_to : Registry W E Ctx → Ctx → ℕ → W → W
    unfolding leave_down leave_at
    run_leave_up_to r ctx count =
        leave_down r.items ctx log_failure r.order (min count (length r.order))

    pub run_leave : Registry W E Ctx → Ctx → W → W
    run_leave r ctx = run_leave_up_to r ctx (length r.order)

    -- the body of the `try`, then the `finally` with the number of completed rounds
    pub finish :
        {T : Type 0}
        → Registry W E Ctx
        → Ctx
        → Effect W E T
        → Outcome E (Unit {0}) × ℕ × W
        → Outcome E T × W
    finish r ctx fn (returned _, completed, w) =
        let (result, w') = fn w in (result, run_leave_up_to r ctx completed w')
    finish r ctx fn (thrown e, completed, w) = (thrown e, run_leave_up_to r ctx completed w)

    unfoldable pub run_scoped : {T : Type 0} → Registry W E Ctx → Ctx → Effect W E T → Effect W E T
    unfolding finish enter_counted run_leave_up_to
    run_scoped r ctx fn w = finish r ctx fn (enter_counted r.items ctx r.order 0 w)
