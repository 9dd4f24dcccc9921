-- ===== src/Prelude/Texts/Laws.antt =====
-- Laws of prefixes, suffixes and splits.
use mathlib.Core.Bool.{not}
use adonisjs_lasagna_multite.Prelude.Lists.{all}
use adonisjs_lasagna_multite.Prelude.Tests.{Bool-cases}
use mathlib.Core.Path.{subst}
use Prim.Native.Nat.{ℕ, ◌-◌}
use mathlib.Core.Path.{◌≡◌, refl, sym, ◌∙◌, ap}
use mathlib.Core.Logic.{◌≢◌, inl, inr}
use mathlib.Core.Bool.{true, false}
use mathlib.Core.List.{List, [], ◌∷◌, ◌++◌, reverse, reverse-append, reverse-reverse}
use native.Mathlib.Omega.{arith}
use adonisjs_lasagna_multite.Prelude.Tests.{nat_beq}
use adonisjs_lasagna_multite.Prelude.Lists.{length, take, All, length-append, take-append}
use adonisjs_lasagna_multite.Prelude.Texts.{
  Text, is_space, trim_start, trim_end, trim, starts_with, ends_with, split, first, push_first,
}

-- The separator does not stand in the text.
abbrev pub Lacks : ℕ → Text → Type 0
Lacks d s = All (λ c. c ≢ d) s

pub starts_with-append : (p s : Text) → starts_with (p ++ s) p ≡ true
starts_with-append [] [] = refl
starts_with-append [] (c ∷ s) = refl
starts_with-append (c ∷ p) s = ground (arith, starts_with-append p s)

pub append_of_starts_with : (s p : Text) → starts_with s p ≡ true → (r : Text) × (s ≡ p ++ r)
append_of_starts_with s [] h = (s, refl)
append_of_starts_with [] (c ∷ p) h = absurd (ground arith)
append_of_starts_with (d ∷ s) (c ∷ p) h =
    let (r, e) = append_of_starts_with s p (ground arith) in
    let same : d ≡ c = ground arith in (r, cc)

pub ends_with-append : (s p : Text) → ends_with (s ++ p) p ≡ true
ends_with-append s p = rw (reverse-append s p) (starts_with-append (reverse p) (reverse s))

pub append_of_ends_with : (s p : Text) → ends_with s p ≡ true → (r : Text) × (s ≡ r ++ p)
append_of_ends_with s p h =
    let (r, e) = append_of_starts_with (reverse s) (reverse p) h in
    (
      reverse r,
      sym (reverse-reverse s)
          ∙ ap reverse e
          ∙ reverse-append (reverse p) r
          ∙ ap (λ t. reverse r ++ t) (reverse-reverse p),
    )

take_all : (s : Text) → take (length s) s ≡ s
take_all [] = refl
take_all (c ∷ s) = ap (λ t. c ∷ t) (take_all s)

-- `(s + p).slice(0, (s + p).length - p.length)`
pub take-suffix : (s p : Text) → take (length (s ++ p) - length p) (s ++ p) ≡ s
take-suffix s p =
    let size : length (s ++ p) - length p ≡ length s = omega (arith, length-append s p) in
    rw size (take-append (length s) s p (omega arith) ∙ take_all s)

pub first-push_first : (c : ℕ) (ws : List Text) → first (push_first c ws) ≡ c ∷ first ws
first-push_first c [] = refl
first-push_first c (w ∷ ws) = refl

pub first-split_all : (d : ℕ) (s : Text) → Lacks d s → first (split d s) ≡ s
first-split_all d [] h = refl
first-split_all d (c ∷ s) (ne, h) =
    let other : nat_beq c d ≡ false = ground arith in
    rw other (first-push_first c (split d s) ∙ ap (λ t. c ∷ t) (first-split_all d s h))

pub first-split : (d : ℕ) (s t : Text) → Lacks d s → first (split d (s ++ d ∷ t)) ≡ s
first-split d [] t h = let same : nat_beq d d ≡ true = ground arith in rw same
first-split d (c ∷ s) t (ne, h) =
    let other : nat_beq c d ≡ false = ground arith in
    rw other (first-push_first c (split d (s ++ d ∷ t)) ∙ ap (λ u. c ∷ u) (first-split d s t h))

pub nil_of_append : (s p : Text) → p ≡ s ++ p → s ≡ []
nil_of_append [] p e = refl
nil_of_append (c ∷ s) p e = absurd (omega (arith, ap length e, length-append s p))

-- The text is empty or begins with a code unit that is no space.
abbrev pub SolidHead : Text → Type 0
SolidHead [] = Unit
SolidHead (c ∷ s) = is_space c ≡ false

-- No space at either end.
abbrev pub IsTrimmed : Text → Type 0
IsTrimmed s = SolidHead s × SolidHead (reverse s)

trim_start-SolidHead : (s : Text) → SolidHead (trim_start s)
trim_start-SolidHead [] = tt
trim_start-SolidHead (c ∷ s) = elim (Bool-cases (is_space c)) [
  | inl space ↦ rw space (trim_start-SolidHead s)
  | inr solid ↦ rw solid solid
]

append-trim_start : (s : Text) → (r : Text) × (s ≡ r ++ trim_start s)
append-trim_start [] = ([], refl)
append-trim_start (c ∷ s) = elim (Bool-cases (is_space c)) [
  | inl space ↦ let (r, e) = append-trim_start s in (c ∷ r, rw space (ap (λ t. c ∷ t) e))
  | inr solid ↦ ([], rw solid)
]

append-trim_end : (s : Text) → (r : Text) × (s ≡ trim_end s ++ r)
append-trim_end s =
    let (r, e) = append-trim_start (reverse s) in
    (reverse r, sym (reverse-reverse s) ∙ ap reverse e ∙ reverse-append r (trim_start (reverse s)))

SolidHead-prefix : (s r : Text) → SolidHead (s ++ r) → SolidHead s
SolidHead-prefix [] r h = tt
SolidHead-prefix (c ∷ s) r h = h

pub trim-IsTrimmed : (s : Text) → IsTrimmed (trim s)
trim-IsTrimmed s =
    let (r, e) = append-trim_end (trim_start s) in
    (
      SolidHead-prefix (trim s) r (subst SolidHead e (trim_start-SolidHead s)),
      subst SolidHead (sym (reverse-reverse _)) (trim_start-SolidHead (reverse (trim_start s))),
    )

pub all-Lacks : (d : ℕ) (s : Text) → all (λ c. not (nat_beq c d)) s ≡ true → Lacks d s
all-Lacks d [] e = tt
all-Lacks d (c ∷ s) e = elim (Bool-cases (nat_beq c d)) [
  | inl same ↦ absurd (ground (arith))
  | inr other ↦ (ground (arith), all-Lacks d s (ground (arith)))
]
