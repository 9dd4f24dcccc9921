-- ===== src/Tenancy/Bootstrap/Nesting.antt =====
-- `runScoped` of src/services/bootstrapper_registry.ts against nested brackets.
use Prim.Native.Nat.{min}
use adonisjs_lasagna_multite.Prelude.{
  String, ◌≡◌, sym, ap, ◌∙◌, subst, some, List, [], ◌∷◌, ◌++◌, arith, length, length-append,
  get_elem?-append, append-cons, get_elem?, string_eq,
}
use native.Mathlib.Numerals.{add-one}
use adonisjs_lasagna_multite.Prelude.Effects.{Outcome, returned, thrown, Effect}
use adonisjs_lasagna_multite.Prelude.Maps.{JsMap, lookup, keys, values, Bound}
use adonisjs_lasagna_multite.Prelude.Maps.Laws.{Bound-self}
use adonisjs_lasagna_multite.Tenancy.Bootstrap.{
  Bootstrapper, Registry, leave_safely, enter_counted, leave_at, leave_down, run_scoped, finish,
  after_enter, run_leave_up_to,
}
use adonisjs_lasagna_multite.Tenancy.Bootstrap.Invariant.{IsValid, IsNamed}

module _ {W E : Type 0} where
  -- A body between an `enter` that has answered and its `leave`.
  abbrev pub enclose :
      {T : Type 0} → Effect W E T → (W → W) → Outcome E (Unit {0}) × W → Outcome E T × W
  enclose body leave (returned _, w) = let (result, w') = body w in (result, leave w')
  enclose body leave (thrown e, w) = (thrown e, w)

module _ {W E Ctx : Type 0} (log_failure : String → E → W → W) (ctx : Ctx) where
  -- Nested brackets: if `enter` returns, the rest runs and `leave` follows, whatever the rest gives.
  unfoldable pub nested : {T : Type 0} → List (Bootstrapper W E Ctx) → Effect W E T → Effect W E T
  nested [] body w = body w
  nested (b ∷ bs) body w = enclose (nested bs body) (leave_safely log_failure ctx b) (b.enter ctx w)

  leave_at-own_name :
      (items : JsMap String (Bootstrapper W E Ctx)) (b : Bootstrapper W E Ctx) (w : W)
      → lookup b.name items ≡ some b
      → leave_at items ctx log_failure (some b.name) w ≡ leave_safely log_failure ctx b w
  unfolding leave_at leave_safely
  leave_at-own_name items b w found = rw (found, leave_at)

  leave_at_lem :
      (items : JsMap String (Bootstrapper W E Ctx)) (b : Bootstrapper W E Ctx) (name : String)
      (w : W)
      → lookup name items ≡ some b
      → b.name ≡ name
      → leave_at items ctx log_failure (some name) w ≡ leave_safely log_failure ctx b w
  leave_at_lem items b name w found named =
      subst (λ n. leave_at items ctx log_failure (some n) w ≡ leave_safely log_failure ctx b w)
        named (leave_at-own_name items b w (subst (λ n. lookup n items ≡ some b) (sym named) found))

  module _ {T : Type 0} (r : Registry W E Ctx) (fn : Effect W E T) where
    -- With the names `pre` entered and the entries `es` still to come, the loops do what the
    -- brackets of `es` do, and then leave `pre` backwards.
    abbrev Unwinds : List String → JsMap String (Bootstrapper W E Ctx) → W → Type 0
    Unwinds pre es w =
        finish log_failure r ctx fn (enter_counted r.items ctx (keys es) (length pre) w) ≡ (
          let (result, w') = nested (values es) fn w in
          (result, leave_down r.items ctx log_failure r.order (length pre) w'))

    leave_prefix :
        (pre rest : List String) (w : W)
        → r.order ≡ pre ++ rest
        → run_leave_up_to log_failure r ctx (length pre) w
          ≡ leave_down r.items ctx log_failure r.order (length pre) w
    unfolding run_leave_up_to
    leave_prefix pre rest w e =
        let capped : min (length pre) (length r.order) ≡ length pre =
          omega (arith, length-append pre rest, ap length e) in
        ap (λ n. leave_down r.items ctx log_failure r.order n w) capped

    leave_place :
        (pre : List String) (k : String) (b : Bootstrapper W E Ctx) (rest : List String) (w : W)
        → r.order ≡ pre ++ k ∷ rest
        → lookup k r.items ≡ some b
        → b.name ≡ k
        → leave_at r.items ctx log_failure (get_elem? r.order (length pre)) w
          ≡ leave_safely log_failure ctx b w
    leave_place pre k b rest w order found named =
        rw (order, get_elem?-append pre k rest) (leave_at_lem r.items b k w found named)

    Unwinds-step :
        (pre : List String) (k : String) (b : Bootstrapper W E Ctx)
        (es : JsMap String (Bootstrapper W E Ctx)) (o : Outcome E (Unit {0}) × W)
        → r.order ≡ pre ++ k ∷ keys es
        → lookup k r.items ≡ some b
        → b.name ≡ k
        → ((w : W) → Unwinds (pre ++ k ∷ []) es w)
        → finish log_failure r ctx fn
            (after_enter (enter_counted r.items ctx (keys es)) (length pre) o)
          ≡ (let (result, w') =
                enclose (nested (values es) fn) (leave_safely log_failure ctx b) o in
              (result, leave_down r.items ctx log_failure r.order (length pre) w'))
    unfolding finish leave_down
    Unwinds-step pre k b es (thrown e, w) order found named ih =
        ap (λ w'. (thrown e, w')) (leave_prefix pre (k ∷ keys es) w order)
    Unwinds-step pre k b es (returned _, w) order found named ih =
        let (result, w') = nested (values es) fn w in
        subst
          (λ n.
            finish log_failure r ctx fn (enter_counted r.items ctx (keys es) n w)
            ≡ (result, leave_down r.items ctx log_failure r.order n w'))
          (length-append pre (k ∷ []) ∙ add-one (length pre)) (ih w)
        ∙ ap (λ v. (result, leave_down r.items ctx log_failure r.order (length pre) v))
            (leave_place pre k b (keys es) w' order found named)

    Unwinds-all :
        (es : JsMap String (Bootstrapper W E Ctx)) (pre : List String) (w : W)
        → r.order ≡ pre ++ keys es
        → Bound r.items es
        → IsNamed es
        → Unwinds pre es w
    unfolding finish enter_counted nested
    Unwinds-all [] pre w order bound named =
        ap (λ v. ((fn w).0, v)) (leave_prefix pre [] (fn w).1 order)
    Unwinds-all ((k, b) ∷ es) pre w order (found, bound) (own, named) =
        rw (found, enter_counted)
          (Unwinds-step pre k b es (b.enter ctx w) order found own (λ v.
            Unwinds-all es (pre ++ k ∷ []) v (order ∙ sym (append-cons pre k (keys es))) bound
              named))

    -- On a valid registry `runScoped` is exactly the nesting of its bootstrappers round `fn` in
    -- the order of registration: whatever the callbacks do, each one that was entered is left
    -- once, last in first out, none after a failing `enter` is touched, the first error or the
    -- result of `fn` comes back, and an error of a `leave` is logged and dropped.
    pub run_scoped-nested :
        IsValid r → (w : W) → run_scoped log_failure r ctx fn w ≡ nested (values r.items) fn w
    unfolding run_scoped leave_down
    run_scoped-nested v w =
        subst
          (λ names.
            finish log_failure r ctx fn (enter_counted r.items ctx names 0 w)
            ≡ nested (values r.items) fn w)
          (sym v.ordered) (Unwinds-all r.items [] w v.ordered (Bound-self r.items v.unique) v.named)
