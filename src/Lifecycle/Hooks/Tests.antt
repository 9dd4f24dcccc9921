-- ===== src/Lifecycle/Hooks/Tests.antt =====
-- Runs of the hook registry in a world that records the calls, and witnesses.
use adonisjs_lasagna_multite.Prelude.{
  String, ◌≡◌, refl, none, some, List, [], ◌∷◌, ◌++◌, if◌then◌else◌, ◌==◌, codes, list_eq,
}
use adonisjs_lasagna_multite.Prelude.Effects.{returned, thrown}
use adonisjs_lasagna_multite.Lifecycle.Hooks.{
  Phase, before, after, Event, provision, backup, Hook, Registry, DeclarativeHooks, hook_key,
  declarative_key, hooks_for, run,
}
use adonisjs_lasagna_multite.Lifecycle.Hooks.Running.{meaning, run-meaning}

abbrev Log : Type 0
Log = List String

abbrev call : String → Hook Log String (Unit {0})
call what ctx log = (returned tt, log ++ what ∷ [])

abbrev fail : String → Hook Log String (Unit {0})
fail what ctx log = (thrown what, log ++ what ∷ [])

abbrev log_failure : Phase → Event → String → Log → Log
log_failure p e error log = log ++ "logged" ∷ []

abbrev declared : DeclarativeHooks Log String (Unit {0})
declared k = if k == codes "beforeProvision" then some (call "declared") else none

abbrev hooks : Registry Log String (Unit {0})
hooks =
    (hook_key before provision, call "one" ∷ fail "two" ∷ call "three" ∷ [])
    ∷ (hook_key after provision, fail "four" ∷ call "five" ∷ [])
    ∷ []

run_before : run log_failure before provision tt hooks [] ≡ (thrown "two", "one" ∷ "two" ∷ [])
unfolding run
run_before = refl

later_calls_happen :
    run log_failure after provision tt hooks [] ≡ (returned tt, "four" ∷ "logged" ∷ "five" ∷ [])
unfolding run
later_calls_happen = refl

declared_key : declarative_key after backup ≡ codes "afterBackup"
unfolding declarative_key
declared_key = refl

run-meaning_example :
    run log_failure before provision tt hooks []
    ≡ meaning log_failure provision tt before (hooks_for before provision hooks) []
run-meaning_example = run-meaning log_failure provision tt before hooks []
