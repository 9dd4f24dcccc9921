-- ===== src/Resolving/Registry/Chain.antt =====
-- How the chain of src/services/resolvers/registry.ts is set and walked.
use adonisjs_lasagna_multite.Prelude.{
  String, ◌≡◌, refl, ap, ◌⊎◌, inl, inr, true, false, Option, none, some, List, [], ◌∷◌, ◌++◌, All,
  Bool-cases, Option-cases, string_eq,
}
use adonisjs_lasagna_multite.Prelude.Maps.{JsMap, lookup, has_key}
use adonisjs_lasagna_multite.Prelude.Effects.{Outcome, returned, thrown}
use adonisjs_lasagna_multite.Resolving.Registry.{
  Resolver, Registry, ChainError, unknown_resolver, has, first_unknown, set_chain, or_next, walk,
  resolve,
}

module _ {W E Req Hit : Type 0} where
  -- What the search for an unknown name may give.
  abbrev Unknown : List String → Registry W E Req Hit → Option String → Type 0
  Unknown names r none = All (λ n. has n r ≡ true) names
  Unknown names r (some name) =
      (pre post : List String) × (names ≡ pre ++ name ∷ post)
      × All (λ n. has n r ≡ true) pre
      × (has name r ≡ false)

  Unknown-cons :
      (n : String) (names : List String) (r : Registry W E Req Hit) (o : Option String)
      → has n r ≡ true
      → Unknown names r o
      → Unknown (n ∷ names) r o
  Unknown-cons n names r none h u = (h, u)
  Unknown-cons n names r (some name) h (pre, post, e, known, missing) =
      (n ∷ pre, post, ap (λ l. n ∷ l) e, (h, known), missing)

  first_unknown-Unknown :
      (names : List String) (r : Registry W E Req Hit) → Unknown names r (first_unknown names r)
  unfolding first_unknown has
  first_unknown-Unknown [] r = tt
  first_unknown-Unknown (n ∷ names) r = elim (Bool-cases (has_key n r.resolvers)) [
    | inl known ↦
        rw known
          (Unknown-cons n names r (first_unknown names r) known (first_unknown-Unknown names r))
    | inr missing ↦ rw missing ([], names, refl, tt, missing)
  ]

  -- How a call of `setChain` ends.
  abbrev pub ChainSet :
      List String → Registry W E Req Hit → Outcome ChainError (Registry W E Req Hit) → Type 0
  ChainSet names r (thrown (unknown_resolver name)) =
      (pre post : List String) × (names ≡ pre ++ name ∷ post)
      × All (λ n. has n r ≡ true) pre
      × (has name r ≡ false)
  ChainSet names r (returned r') =
      All (λ n. has n r ≡ true) names × (r' ≡ record r { chain = names })

  -- `setChain` replaces the chain, and nothing else, where every name is registered; otherwise it
  -- throws, naming the first name that is not.
  pub set_chain-ChainSet :
      (names : List String) (r : Registry W E Req Hit) → ChainSet names r (set_chain names r)
  unfolding set_chain
  set_chain-ChainSet names r = ended (first_unknown names r) (first_unknown-Unknown names r)
    where
      ended :
          (o : Option String)
          → Unknown names r o
          → ChainSet names r (elim o [
            | some name ↦ thrown (unknown_resolver name)
            | none ↦ returned (record r { chain = names })
          ])
      ended none u = (u, refl)
      ended (some name) u = u

  module _ (m : JsMap String (Resolver W E Req Hit)) (request : Req) where
    -- Every name is unregistered or its resolver misses; the world goes from the first to the last.
    abbrev pub Misses : List String → W → W → Type 0
    Misses [] w v = v ≡ w
    Misses (n ∷ names) w v =
        ((lookup n m ≡ none) × Misses names w v)
        ⊎ ((resolver : Resolver W E Req Hit) × (u : W) × (lookup n m ≡ some resolver)
            × (resolver.resolve request w ≡ (returned none, u))
            × Misses names u v)

    -- The names before some name miss, and the resolver of that name answers.
    abbrev pub Answers : List String → W → Outcome E (Option Hit) × W → Type 0
    Answers names w o =
        (pre post : List String) × (name : String) × (resolver : Resolver W E Req Hit) × (u : W)
        × (names ≡ pre ++ name ∷ post)
        × Misses pre w u
        × (lookup name m ≡ some resolver)
        × (resolver.resolve request u ≡ o)

    abbrev pub Walked : List String → W → Outcome E (Option Hit) × W → Type 0
    Walked names w (returned none, v) = Misses names w v
    Walked names w (returned (some hit), v) = Answers names w (returned (some hit), v)
    Walked names w (thrown e, v) = Answers names w (thrown e, v)

    Walked-skip :
        (n : String) (names : List String) (w : W) (o : Outcome E (Option Hit) × W)
        → lookup n m ≡ none
        → Walked names w o
        → Walked (n ∷ names) w o
    Walked-skip n names w (returned none, v) h k = inl (h, k)
    Walked-skip n names w (returned (some hit), v) h (pre, post, name, s, u, e, miss, found, r) =
        (n ∷ pre, post, name, s, u, ap (λ l. n ∷ l) e, inl (h, miss), found, r)
    Walked-skip n names w (thrown x, v) h (pre, post, name, s, u, e, miss, found, r) =
        (n ∷ pre, post, name, s, u, ap (λ l. n ∷ l) e, inl (h, miss), found, r)

    Walked-miss :
        (n : String) (names : List String) (w w' : W) (t : Resolver W E Req Hit)
        (o : Outcome E (Option Hit) × W)
        → lookup n m ≡ some t
        → t.resolve request w ≡ (returned none, w')
        → Walked names w' o
        → Walked (n ∷ names) w o
    Walked-miss n names w w' t (returned none, v) h a k = inr (t, w', h, a, k)
    Walked-miss n names w w' t (returned (some hit), v) h a
          (pre, post, name, s, u, e, miss, found, r) =
        (n ∷ pre, post, name, s, u, ap (λ l. n ∷ l) e, inr (t, w', h, a, miss), found, r)
    Walked-miss n names w w' t (thrown x, v) h a (pre, post, name, s, u, e, miss, found, r) =
        (n ∷ pre, post, name, s, u, ap (λ l. n ∷ l) e, inr (t, w', h, a, miss), found, r)

    Walked-answer :
        (n : String) (names : List String) (w : W) (t : Resolver W E Req Hit)
        (o : Outcome E (Option Hit) × W)
        → lookup n m ≡ some t
        → t.resolve request w ≡ o
        → ((v : W) → Walked names v (walk m request names v))
        → Walked (n ∷ names) w (or_next (walk m request names) o)
    Walked-answer n names w t (returned none, v) h a ih =
        Walked-miss n names w v t (walk m request names v) h a (ih v)
    Walked-answer n names w t (returned (some hit), v) h a ih =
        ([], names, n, t, w, refl, refl, h, a)
    Walked-answer n names w t (thrown x, v) h a ih = ([], names, n, t, w, refl, refl, h, a)

    walk-Walked : (names : List String) (w : W) → Walked names w (walk m request names w)
    unfolding walk
    walk-Walked [] w = refl
    walk-Walked (n ∷ names) w = elim (Option-cases (lookup n m)) [
      | inl missing ↦
          rw (missing, walk)
            (Walked-skip n names w (walk m request names w) missing (walk-Walked names w))
      | inr (t, found) ↦
          rw (found, walk)
            (Walked-answer n names w t (t.resolve request w) found refl (λ v. walk-Walked names v))
    ]

  -- The chain is walked in order, past names that are not registered and resolvers that miss. The
  -- first hit or error ends the walk and is the result; none at all is a miss.
  pub resolve-Walked :
      (r : Registry W E Req Hit) (request : Req) (w : W)
      → Walked r.resolvers request r.chain w (resolve r request w)
  unfolding resolve
  resolve-Walked r request w = walk-Walked r.resolvers request r.chain w
