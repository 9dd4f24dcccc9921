-- ===== src/Resolving/Registry.antt =====
-- src/services/resolvers/registry.ts: the registered resolvers and the chain that is walked. A
-- resolver's `resolve` is an arbitrary call in a world, and may throw; it does not change the
-- registry.
pub mod Chain
mod Tests
use adonisjs_lasagna_multite.Prelude.{
  String, Bool, true, false, not, Option, none, some, List, [], ◌∷◌, if◌then◌else◌, string_eq,
}
use adonisjs_lasagna_multite.Prelude.Maps.{JsMap, lookup, has_key, insert, erase, keys}
use adonisjs_lasagna_multite.Prelude.Effects.{Outcome, returned, thrown, Effect, ◌>>=◌}

module _ (W E Req Hit : Type 0) where
  pub record Resolver : Type 0 where
    pub name : String
    pub resolve : Req → Effect W E (Option Hit)

  pub record Registry : Type 0 where
    pub resolvers : JsMap String Resolver
    pub chain : List String

pub data ChainError : Type 0 where
  unknown_resolver : String → ChainError

module _ {W E Hit : Type 0} where
  -- one turn of the loop of `resolve`, by what the resolver gave
  abbrev pub or_next :
      Effect W E (Option Hit) → Outcome E (Option Hit) × W → Outcome E (Option Hit) × W
  or_next rest (returned none, w) = rest w
  or_next rest (returned (some hit), w) = (returned (some hit), w)
  or_next rest (thrown e, w) = (thrown e, w)

module _ {W E Req Hit : Type 0} where
  abbrev pub empty : Registry W E Req Hit
  empty = record { resolvers = []; chain = [] }

  pub register : Resolver W E Req Hit → Registry W E Req Hit → Registry W E Req Hit
  register resolver r = record r { resolvers = insert resolver.name resolver r.resolvers }

  pub unregister : String → Registry W E Req Hit → Registry W E Req Hit × Bool
  unregister name r = (record r { resolvers = erase name r.resolvers }, has_key name r.resolvers)

  pub has : String → Registry W E Req Hit → Bool
  has name r = has_key name r.resolvers

  pub list : Registry W E Req Hit → List String
  list r = keys r.resolvers

  -- the loop of `setChain`: the first name that is not registered
  pub first_unknown : List String → Registry W E Req Hit → Option String
  first_unknown [] r = none
  first_unknown (name ∷ names) r =
      if not (has_key name r.resolvers) then some name else first_unknown names r

  pub set_chain : List String → Registry W E Req Hit → Outcome ChainError (Registry W E Req Hit)
  unfolding first_unknown
  set_chain names r = elim (first_unknown names r) [
    | some name ↦ thrown (unknown_resolver name)
    | none ↦ returned (record r { chain = names })
  ]

  pub clear : Registry W E Req Hit → Registry W E Req Hit
  clear r = empty

  -- the loop of `resolve`
  pub walk : JsMap String (Resolver W E Req Hit) → Req → List String → Effect W E (Option Hit)
  walk resolvers request [] w = (returned none, w)
  walk resolvers request (name ∷ names) w = elim (lookup name resolvers) [
    | none ↦ walk resolvers request names w
    | some resolver ↦ or_next (walk resolvers request names) (resolver.resolve request w)
  ]

  -- `TenantResolverRegistry.resolve`
  pub resolve : Registry W E Req Hit → Req → Effect W E (Option Hit)
  unfolding walk
  resolve r request = walk r.resolvers request r.chain
