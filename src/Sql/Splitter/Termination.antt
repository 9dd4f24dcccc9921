-- ===== src/Sql/Splitter/Termination.antt =====
-- The loop of `splitSqlStatements` (src/utils/sql_splitter.ts) ends on every text.
use adonisjs_lasagna_multite.Prelude.{
  ℕ, zero, suc, ◌-◌, ◌≤◌, ◌<◌, ◌≡◌, refl, sym, subst, Option, none, some, List, [], ◌∷◌, arith,
  length, Bool-cases, inl, inr, Text, starts_with,
}
use adonisjs_lasagna_multite.Sql.Splitter.{
  Mode, default, single_quote, line_comment, block_comment, dollar_quote, Scan, start, Round,
  dollar_step, tag_match, default_rest, open_dollar, default_step, step, advance, scan, trailing,
  split_sql_statements,
}

-- Inside a dollar quote the tag is not empty.
abbrev pub TagFits : Mode → Text → Type 0
TagFits dollar_quote [] = ⊥
TagFits dollar_quote (c ∷ tag) = Unit
TagFits default tag = Unit
TagFits single_quote tag = Unit
TagFits line_comment tag = Unit
TagFits block_comment tag = Unit

abbrev pub IsReady : Scan → Type 0
IsReady st = TagFits st.mode st.dollar_tag

-- A round moves on, and keeps the tag.
abbrev pub Progress : Round → Type 0
Progress (st, n) = (1 ≤ n) × IsReady st

default_rest-Progress :
    (prev : Option ℕ) (c : ℕ) (s : Text) (st : Scan)
    → IsReady st
    → Progress (default_rest prev c s st)
unfolding default_rest
default_rest-Progress prev c s st ready = ground arith

open_dollar-Progress :
    (o : Option Text) (c : ℕ) (s : Text) (rest : Round) (st : Scan)
    → tag_match c s ≡ o
    → Progress rest
    → Progress (open_dollar o rest st)
unfolding tag_match
open_dollar-Progress none c s rest st e p = p
open_dollar-Progress (some []) c s rest st e p = absurd (ground (arith))
open_dollar-Progress (some (d ∷ tag)) c s rest st e p = (omega arith, tt)

default_step-Progress :
    (prev : Option ℕ) (c : ℕ) (s : Text) (st : Scan)
    → IsReady st
    → Progress (default_step prev c s st)
unfolding default_step
default_step-Progress prev c s st ready = ground (
  arith,
  open_dollar-Progress (tag_match c s) c s (default_rest prev c s st) st refl
      (default_rest-Progress prev c s st ready),
)

dollar_step-Progress :
    (c : ℕ) (s tag : Text) (st : Scan)
    → st.dollar_tag ≡ tag
    → st.mode ≡ dollar_quote
    → TagFits dollar_quote tag
    → Progress (step dollar_quote none c s st)
unfolding step
dollar_step-Progress c s [] st e m ready = absurd ready
dollar_step-Progress c s (d ∷ tag) st e m ready =
    let fits : TagFits st.mode st.dollar_tag =
      subst (λ t. TagFits st.mode t) (sym e) (subst (λ k. TagFits k (d ∷ tag)) (sym m) tt) in
    let long : 1 ≤ length st.dollar_tag = subst (λ t. 1 ≤ length t) (sym e) (omega arith) in
    elim (Bool-cases (starts_with (c ∷ s) st.dollar_tag)) [
      | inl closed ↦ rw (closed, dollar_step) (long, tt)
      | inr open_still ↦ rw (open_still, dollar_step) (omega arith, fits)
    ]

pub step-Progress :
    (mode : Mode) (prev : Option ℕ) (c : ℕ) (s : Text) (st : Scan)
    → st.mode ≡ mode
    → IsReady st
    → Progress (step mode prev c s st)
unfolding step
step-Progress default prev c s st e ready = default_step-Progress prev c s st ready
step-Progress single_quote prev c s st e ready = ground arith
step-Progress line_comment prev c s st e ready = ground arith
step-Progress block_comment prev c s st e ready = ground arith
step-Progress dollar_quote prev c s st e ready =
    dollar_step-Progress c s st.dollar_tag st refl e (subst (λ m. TagFits m st.dollar_tag) e ready)

pub length-advance :
    (n : ℕ) (prev : Option ℕ) (s : Text) → length (advance n prev s).1 ≤ length s - n
unfolding advance
length-advance zero prev s = omega arith
length-advance (suc n) prev [] = omega arith
length-advance (suc n) prev (c ∷ s) = omega (arith, length-advance n (some c) s)

pub scan_fuel :
    (f g : ℕ) (prev : Option ℕ) (s : Text) (st : Scan)
    → IsReady st
    → length s < f
    → length s < g
    → scan f prev s st ≡ scan g prev s st
unfolding scan
scan_fuel zero g prev s st ready hf hg = absurd (omega arith)
scan_fuel (suc f) zero prev s st ready hf hg = absurd (omega arith)
scan_fuel (suc f) (suc g) prev [] st ready hf hg = refl
scan_fuel (suc f) (suc g) prev (c ∷ s) st ready hf hg =
    let (st', n) = step st.mode prev c s st in
    let (moves, ready') = step-Progress st.mode prev c s st refl ready in
    let (prev', s') = advance n prev (c ∷ s) in
    let short = length-advance n prev (c ∷ s) in
    scan_fuel f g prev' s' st' ready' (omega (arith, short, moves)) (omega (arith, short, moves))

scan_total :
    (f : ℕ) (prev : Option ℕ) (s : Text) (st : Scan)
    → IsReady st
    → length s < f
    → (end : Scan) × (scan f prev s st ≡ some end)
unfolding scan
scan_total zero prev s st ready hf = absurd (omega arith)
scan_total (suc f) prev [] st ready hf = (st, refl)
scan_total (suc f) prev (c ∷ s) st ready hf =
    let (st', n) = step st.mode prev c s st in
    let (moves, ready') = step-Progress st.mode prev c s st refl ready in
    let (prev', s') = advance n prev (c ∷ s) in
    scan_total f prev' s' st' ready' (omega (arith, length-advance n prev (c ∷ s), moves))

-- The splitter ends on every text: the loop never stands still, also inside a dollar quote, whose
-- tag is never empty, so a round for each code unit is enough.
pub split_sql_statements_total :
    (sql : Text) → (statements : List Text) × (split_sql_statements sql ≡ some statements)
unfolding split_sql_statements
split_sql_statements_total sql =
    let (end, e) = scan_total (suc (length sql)) none sql start tt (omega arith) in
    (trailing end, rw e)
