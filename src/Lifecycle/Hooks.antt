-- ===== src/Lifecycle/Hooks.antt =====
-- src/services/hook_registry.ts: hooks by phase and event, and the loop that runs them. A hook is an
-- arbitrary call that may throw; it does not change the registry. `log_failure` stands for the
-- logger of `#logAfterFailure`.
pub mod Keys
pub mod Loading
pub mod Running
pub mod Tests
use adonisjs_lasagna_multite.Prelude.{
  ℕ, ◌-◌, Bool, true, false, Option, none, some, List, [], ◌∷◌, ◌++◌, if◌then◌else◌, Text, codes,
  is_lower, list_eq,
}
use adonisjs_lasagna_multite.Prelude.Maps.{JsMap, lookup, insert}
use adonisjs_lasagna_multite.Prelude.Effects.{Outcome, returned, thrown, Effect, pure}

pub data Phase : Type 0 where
  before after : Phase

pub data Event : Type 0 where
  provision destroy backup restore clone migrate : Event

abbrev pub phase_name : Phase → Text
phase_name before = codes "before"
phase_name after = codes "after"

abbrev pub event_name : Event → Text
event_name provision = codes "provision"
event_name destroy = codes "destroy"
event_name backup = codes "backup"
event_name restore = codes "restore"
event_name clone = codes "clone"
event_name migrate = codes "migrate"

-- the template `${phase}:${event}`
abbrev pub hook_key : Phase → Event → Text
hook_key p e = phase_name p ++ b':' ∷ event_name e

abbrev to_upper : ℕ → ℕ
to_upper c = if is_lower c then c - 32 else c

abbrev capitalise : Text → Text
capitalise [] = []
capitalise (c ∷ s) = to_upper c ∷ s

-- The field of `DeclarativeHooks` for a phase and an event.
pub declarative_key : Phase → Event → Text
declarative_key p e = phase_name p ++ capitalise (event_name e)

abbrev pub phase_events : List (Phase × Event)
phase_events =
    (before, provision)
    ∷ (after, provision)
    ∷ (before, destroy)
    ∷ (after, destroy)
    ∷ (before, backup)
    ∷ (after, backup)
    ∷ (before, restore)
    ∷ (after, restore)
    ∷ (before, clone)
    ∷ (after, clone)
    ∷ (before, migrate)
    ∷ (after, migrate)
    ∷ []

module _ (W E Ctx : Type 0) where
  abbrev pub Hook : Type 0
  Hook = Ctx → Effect W E (Unit {0})

  abbrev pub Registry : Type 0
  Registry = JsMap Text (List Hook)

  -- An object with optional fields.
  abbrev pub DeclarativeHooks : Type 0
  DeclarativeHooks = Text → Option Hook

module _ {W E : Type 0} where
  -- one turn of the loop of `run`, by how the hook ended
  abbrev pub after_hook_call :
      (Phase → Event → E → W → W)
      → Phase
      → Event
      → Effect W E (Unit {0})
      → Outcome E (Unit {0}) × W
      → Outcome E (Unit {0}) × W
  after_hook_call log_failure p e rest (returned _, w) = rest w
  after_hook_call log_failure before e rest (thrown error, w) = (thrown error, w)
  after_hook_call log_failure after e rest (thrown error, w) = rest (log_failure after e error w)

module _ {W E Ctx : Type 0} where
  -- `this.#hooks.get(key) ?? []`
  pub hooks_for : Phase → Event → Registry W E Ctx → List (Hook W E Ctx)
  hooks_for p e r = elim (lookup (hook_key p e) r) [ none ↦ [] | some hooks ↦ hooks ]

  -- `#register`
  pub register : Phase → Event → Hook W E Ctx → Registry W E Ctx → Registry W E Ctx
  register p e hook r = elim (lookup (hook_key p e) r) [
    | some existing ↦ insert (hook_key p e) (existing ++ hook ∷ []) r
    | none ↦ insert (hook_key p e) (hook ∷ []) r
  ]

  pub before_hook : Event → Hook W E Ctx → Registry W E Ctx → Registry W E Ctx
  before_hook e = register before e

  pub after_hook : Event → Hook W E Ctx → Registry W E Ctx → Registry W E Ctx
  after_hook e = register after e

  -- the loop of `loadDeclarative`
  pub load_from :
      List (Phase × Event) → DeclarativeHooks W E Ctx → Registry W E Ctx → Registry W E Ctx
  load_from [] hooks r = r
  load_from ((p, e) ∷ rest) hooks r =
      load_from rest hooks
        (elim (hooks (declarative_key p e)) [ none ↦ r | some hook ↦ register p e hook r ])

  pub load_declarative : Option (DeclarativeHooks W E Ctx) → Registry W E Ctx → Registry W E Ctx
  unfolding load_from
  load_declarative none r = r
  load_declarative (some hooks) r = load_from phase_events hooks r

  pub clear : Registry W E Ctx → Registry W E Ctx
  clear r = []

  -- the loop of `run`
  pub run_hooks :
      (Phase → Event → E → W → W)
      → Phase
      → Event
      → Ctx
      → List (Hook W E Ctx)
      → Effect W E (Unit {0})
  run_hooks log_failure p e ctx [] w = (returned tt, w)
  run_hooks log_failure p e ctx (hook ∷ hooks) w =
      after_hook_call log_failure p e (run_hooks log_failure p e ctx hooks) (hook ctx w)

  unfoldable pub run :
      (Phase → Event → E → W → W) → Phase → Event → Ctx → Registry W E Ctx → Effect W E (Unit {0})
  unfolding run_hooks
  run log_failure p e ctx r w = elim (lookup (hook_key p e) r) [
    | none ↦ (returned tt, w)
    | some hooks ↦ run_hooks log_failure p e ctx hooks w
  ]
