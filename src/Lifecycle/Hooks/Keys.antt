-- ===== src/Lifecycle/Hooks/Keys.antt =====
-- The keys of the hook table (src/services/hook_registry.ts) tell phases and events apart.
use adonisjs_lasagna_multite.Prelude.{◌≡◌, refl, ap, some, List, [], ◌∷◌, Text, list_eq}
use adonisjs_lasagna_multite.Prelude.Maps.{JsMap, lookup}
use adonisjs_lasagna_multite.Lifecycle.Hooks.{
  Phase, before, after, Event, provision, destroy, backup, restore, clone, migrate, hook_key,
  phase_events,
}

abbrev table : (Phase → Event → Text) → List (Phase × Event) → JsMap Text (Phase × Event)
table key [] = []
table key ((p, e) ∷ rest) = (key p e, (p, e)) ∷ table key rest

decode-hook_key :
    (p : Phase) (e : Event) → lookup (hook_key p e) (table hook_key phase_events) ≡ some (p, e)
decode-hook_key before provision = refl
decode-hook_key before destroy = refl
decode-hook_key before backup = refl
decode-hook_key before restore = refl
decode-hook_key before clone = refl
decode-hook_key before migrate = refl
decode-hook_key after provision = refl
decode-hook_key after destroy = refl
decode-hook_key after backup = refl
decode-hook_key after restore = refl
decode-hook_key after clone = refl
decode-hook_key after migrate = refl

-- Hooks of two phases or events never share a key: equal keys come from equal pairs.
pub hook_key-injective :
    (p : Phase) (e : Event) (q : Phase) (f : Event)
    → hook_key p e ≡ hook_key q f
    → ◌≡◌ {A = Phase × Event} (p, e) (q, f)
hook_key-injective p e q f same = cc (
  decode-hook_key p e,
  decode-hook_key q f,
  ap (λ k. lookup k (table hook_key phase_events)) same,
)
