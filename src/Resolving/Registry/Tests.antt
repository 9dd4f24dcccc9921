-- ===== src/Resolving/Registry/Tests.antt =====
-- A chain of two resolvers, and witnesses.
use adonisjs_lasagna_multite.Prelude.{ℕ, String, ◌≡◌, refl, Option, none, some, List, [], ◌∷◌, ◌++◌}
use adonisjs_lasagna_multite.Prelude.Effects.{returned, thrown}
use adonisjs_lasagna_multite.Resolving.Registry.{
  Resolver, Registry, unknown_resolver, set_chain, resolve,
}
use adonisjs_lasagna_multite.Resolving.Registry.Chain.{Walked, resolve-Walked}

-- The world lists the resolvers asked.
abbrev Log : Type 0
Log = List String

abbrev answering : String → Option ℕ → Resolver Log String ℕ ℕ
answering name o = record { name = name; resolve = λ request log. (returned o, log ++ name ∷ []) }

abbrev registry : Registry Log String ℕ ℕ
registry = record {
  resolvers = ("header", answering "header" none) ∷ ("path", answering "path" (some 7)) ∷ [];
  chain = "gone" ∷ "header" ∷ "path" ∷ [];
}

resolve_second : resolve registry 0 [] ≡ (returned (some 7), "header" ∷ "path" ∷ [])
unfolding resolve
resolve_second = refl

set_unknown : set_chain ("path" ∷ "gone" ∷ []) registry ≡ thrown (unknown_resolver "gone")
unfolding set_chain
set_unknown = refl

resolve-Walked_example : Walked registry.resolvers 0 registry.chain [] (resolve registry 0 [])
resolve-Walked_example = resolve-Walked registry 0 []
