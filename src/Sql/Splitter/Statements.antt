-- ===== src/Sql/Splitter/Statements.antt =====
-- What the statements of `splitSqlStatements` (src/utils/sql_splitter.ts) look like.
use adonisjs_lasagna_multite.Prelude.{
  ℕ, zero, suc, nat_beq, length, ◌≡◌, ◌≢◌, ◌⊎◌, inl, inr, refl, sym, subst, Option, none, some,
  List, [], ◌∷◌, arith, All, All-append, Bool-cases, not, ◌&&◌, ◌==◌, list_eq, list_beq_iff, Text,
  trim,
}
use adonisjs_lasagna_multite.Prelude.Texts.Laws.{IsTrimmed, trim-IsTrimmed}
use adonisjs_lasagna_multite.Sql.Splitter.{
  Mode, default, single_quote, line_comment, block_comment, dollar_quote, Scan, start, Round,
  push_statement, next_is, at_line_start, tag_match, default_rest, open_dollar, default_step, step,
  advance, scan, trailing, finish, split_sql_statements,
}

-- A statement: not empty, and with no space at either end.
abbrev pub IsStatement : Text → Type 0
IsStatement s = (s ≢ []) × IsTrimmed s

-- A round emits nothing, or the trimmed text before a semicolon.
abbrev Emits : Scan → Round → Type 0
Emits st (st', n) =
    (st'.statements ≡ st.statements)
    ⊎ (st'.statements ≡ push_statement st.statements (trim st.current))

default_rest-Emits :
    (prev : Option ℕ) (c : ℕ) (s : Text) (st : Scan) → Emits st (default_rest prev c s st)
unfolding default_rest
default_rest-Emits prev c s st = elim (Bool-cases (nat_beq c b';')) [
  | inl semicolon ↦ rw semicolon (inr refl)
  | inr other ↦ elim (Bool-cases (nat_beq c b'\\' && at_line_start prev)) [
    | inl meta ↦ rw (other, meta) (inl refl)
    | inr plain ↦ rw (other, plain) (inl refl)
  ]
]

open_dollar-Emits :
    (o : Option Text) (rest : Round) (st : Scan) → Emits st rest → Emits st (open_dollar o rest st)
open_dollar-Emits none rest st h = h
open_dollar-Emits (some tag) rest st h = inl refl

step-Emits :
    (mode : Mode) (prev : Option ℕ) (c : ℕ) (s : Text) (st : Scan)
    → Emits st (step mode prev c s st)
unfolding step default_step
step-Emits default prev c s st = elim (Bool-cases (nat_beq c b'-' && next_is b'-' s)) [
  | inl dashes ↦ rw dashes (inl refl)
  | inr a ↦ elim (Bool-cases (nat_beq c b'/' && next_is b'*' s)) [
    | inl block ↦ rw (a, block) (inl refl)
    | inr b ↦ elim (Bool-cases (nat_beq c b'\'')) [
      | inl quote ↦ rw (a, b, quote) (inl refl)
      | inr d ↦
          rw (a, b, d)
            (open_dollar-Emits (tag_match c s) (default_rest prev c s st) st
              (default_rest-Emits prev c s st))
    ]
  ]
]
step-Emits single_quote prev c s st = ground arith
step-Emits line_comment prev c s st = ground arith
step-Emits block_comment prev c s st = ground arith
step-Emits dollar_quote prev c s st = ground arith

push_statement-All :
    (statements : List Text) (s : Text)
    → All IsStatement statements
    → IsTrimmed s
    → All IsStatement (push_statement statements s)
push_statement-All statements [] h t = h
push_statement-All statements (c ∷ s) h t =
    All-append IsStatement statements ((c ∷ s) ∷ []) h (((λ blank. cc), t), tt)

step-All :
    (prev : Option ℕ) (c : ℕ) (s : Text) (st : Scan)
    → All IsStatement st.statements
    → All IsStatement (step st.mode prev c s st).0.statements
step-All prev c s st h = elim (step-Emits st.mode prev c s st) [
  | inl same ↦ subst (All IsStatement) (sym same) h
  | inr pushed ↦
      subst (All IsStatement) (sym pushed)
        (push_statement-All st.statements (trim st.current) h (trim-IsTrimmed st.current))
]

abbrev Emitted : Option Scan → Type 0
Emitted none = Unit
Emitted (some st) = All IsStatement st.statements

scan-Emitted :
    (fuel : ℕ) (prev : Option ℕ) (s : Text) (st : Scan)
    → All IsStatement st.statements
    → Emitted (scan fuel prev s st)
unfolding scan
scan-Emitted zero prev s st h = tt
scan-Emitted (suc fuel) prev [] st h = h
scan-Emitted (suc fuel) prev (c ∷ s) st h =
    let (st', n) = step st.mode prev c s st in
    let (prev', s') = advance n prev (c ∷ s) in
    scan-Emitted fuel prev' s' st' (step-All prev c s st h)

trailing-All : (st : Scan) → All IsStatement st.statements → All IsStatement (trailing st)
unfolding trailing
trailing-All st h =
    let last = trim st.current in
    elim (Bool-cases (not (last == []) && not (last == b';' ∷ []))) [
      | inl solid ↦ rw solid (
          All-append IsStatement st.statements (last ∷ []) h
            ((ground (arith, list_beq_iff last []), trim-IsTrimmed st.current), tt))
      | inr blank ↦ rw blank h
    ]

abbrev FinishAll : Option (List Text) → Type 0
FinishAll none = Unit
FinishAll (some statements) = All IsStatement statements

finish-All : (o : Option Scan) → Emitted o → FinishAll (finish o)
finish-All none h = tt
finish-All (some st) h = trailing-All st h

-- Every statement that the splitter gives is not empty and has no space at either end.
pub split_sql_statements-IsStatement :
    (sql : Text) {statements : List Text}
    → split_sql_statements sql ≡ some statements
    → All IsStatement statements
unfolding split_sql_statements
split_sql_statements-IsStatement sql e =
    subst FinishAll e (finish-All _ (scan-Emitted (suc (length sql)) none sql start tt))
