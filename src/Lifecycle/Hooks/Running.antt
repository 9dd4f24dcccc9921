-- ===== src/Lifecycle/Hooks/Running.antt =====
-- What `run` of src/services/hook_registry.ts does before and after an operation.
use adonisjs_lasagna_multite.Prelude.{◌≡◌, refl, List, [], ◌∷◌, Option-cases, inl, inr, list_eq}
use adonisjs_lasagna_multite.Prelude.Maps.{lookup}
use adonisjs_lasagna_multite.Prelude.Effects.{Outcome, returned, thrown, Effect, ◌>>◌}
use adonisjs_lasagna_multite.Lifecycle.Hooks.{
  Phase, before, after, Event, Hook, Registry, hook_key, hooks_for, after_hook_call, run_hooks, run,
}

module _ {W E Ctx : Type 0} (log_failure : Phase → Event → E → W → W) (e : Event) (ctx : Ctx) where
  -- One after another; the first error ends the chain.
  abbrev pub chain : List (Hook W E Ctx) → Effect W E (Unit {0})
  chain [] w = (returned tt, w)
  chain (hook ∷ hooks) w = (hook ctx >> chain hooks) w

  abbrev pub settle_one : Outcome E (Unit {0}) × W → W
  settle_one (returned _, w) = w
  settle_one (thrown error, w) = log_failure after e error w

  -- All of them, each error logged.
  abbrev pub settle : List (Hook W E Ctx) → W → W
  settle [] w = w
  settle (hook ∷ hooks) w = settle hooks (settle_one (hook ctx w))

  -- What `run` means in each phase.
  abbrev pub meaning : Phase → List (Hook W E Ctx) → Effect W E (Unit {0})
  meaning before hooks w = chain hooks w
  meaning after hooks w = (returned tt, settle hooks w)

  run_hooks-before :
      (hooks : List (Hook W E Ctx)) (w : W)
      → run_hooks log_failure before e ctx hooks w ≡ chain hooks w
  unfolding run_hooks
  run_hooks-before [] w = refl
  run_hooks-before (hook ∷ hooks) w = step (hook ctx w) (run_hooks-before hooks)
    where
      step :
          (o : Outcome E (Unit {0}) × W)
          → ((v : W) → run_hooks log_failure before e ctx hooks v ≡ chain hooks v)
          → after_hook_call log_failure before e (run_hooks log_failure before e ctx hooks) o
            ≡ ((λ (_ : W). o) >> chain hooks) w
      step (returned _, v) ih = ih v
      step (thrown error, v) ih = refl

  run_hooks-after :
      (hooks : List (Hook W E Ctx)) (w : W)
      → run_hooks log_failure after e ctx hooks w ≡ (returned tt, settle hooks w)
  unfolding run_hooks
  run_hooks-after [] w = refl
  run_hooks-after (hook ∷ hooks) w = step (hook ctx w) (run_hooks-after hooks)
    where
      step :
          (o : Outcome E (Unit {0}) × W)
          → ((v : W) → run_hooks log_failure after e ctx hooks v ≡ (returned tt, settle hooks v))
          → after_hook_call log_failure after e (run_hooks log_failure after e ctx hooks) o
            ≡ (returned tt, settle hooks (settle_one o))
      step (returned _, v) ih = ih v
      step (thrown error, v) ih = ih (log_failure after e error v)

  -- Before an operation the hooks run in the order of registration until one throws, and its error
  -- is thrown; after an operation all of them run, errors are logged, and nothing is thrown.
  pub run-meaning :
      (p : Phase) (r : Registry W E Ctx) (w : W)
      → run log_failure p e ctx r w ≡ meaning p (hooks_for p e r) w
  unfolding run hooks_for
  run-meaning before r w = elim (Option-cases (lookup (hook_key before e) r)) [
    | inl missing ↦ rw (missing, run, hooks_for)
    | inr (hooks, found) ↦ rw (found, run, hooks_for) (run_hooks-before hooks w)
  ]
  run-meaning after r w = elim (Option-cases (lookup (hook_key after e) r)) [
    | inl missing ↦ rw (missing, run, hooks_for)
    | inr (hooks, found) ↦ rw (found, run, hooks_for) (run_hooks-after hooks w)
  ]
