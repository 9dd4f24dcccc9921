-- ===== src/Sql/Splitter/Lexemes.antt =====
-- Dumps written from lexemes, and what `splitSqlStatements` (src/utils/sql_splitter.ts) makes of them.
use adonisjs_lasagna_multite.Prelude.{
  ℕ, suc, ◌≡◌, ◌≢◌, refl, sym, ◌∙◌, ap, false, Option, none, some, List, [], ◌∷◌, ◌++◌, arith,
  length, Bool-cases, inl, inr, Text, nat_beq, if◌then◌else◌, trim,
}
use mathlib.Core.List.{append-nil, append_assoc}
use adonisjs_lasagna_multite.Prelude.Texts.Laws.{Lacks}
use adonisjs_lasagna_multite.Sql.Splitter.{
  Mode, default, single_quote, line_comment, Scan, Round, next_is, push_statement, tag_match,
  default_rest, default_step, step, advance, scan, trailing, finish, split_sql_statements,
}
use adonisjs_lasagna_multite.Sql.Splitter.Termination.{
  IsReady, step-Progress, length-advance, scan_fuel,
}

-- The loop with the fuel that the splitter gives it.
abbrev answer : Option ℕ → Text → Scan → Option Scan
answer prev s st = scan (suc (length s)) prev s st

-- The loop behind a round.
abbrev after : Option ℕ → Text → Round → Option Scan
after prev s (st, n) = answer (advance n prev s).0 (advance n prev s).1 st

answer-step :
    (prev : Option ℕ) (c : ℕ) (s : Text) (st : Scan) (r : Round)
    → IsReady st
    → step st.mode prev c s st ≡ r
    → answer prev (c ∷ s) st ≡ after prev (c ∷ s) r
unfolding scan
answer-step prev c s st r ready e =
    let (moves, ready') = step-Progress st.mode prev c s st refl ready in
    let m = (step st.mode prev c s st).1 in
    let short = length-advance m prev (c ∷ s) in
    scan_fuel (suc (length s)) (suc (length (advance m prev (c ∷ s)).1)) (advance m prev (c ∷ s)).0
      (advance m prev (c ∷ s)).1 (step st.mode prev c s st).0 ready' (omega (arith, short, moves))
      (omega arith)
    ∙ ap (after prev (c ∷ s)) e

-- The variables outside dollar quotes.
abbrev at : Mode → List Text → Text → Scan
at mode statements current = record {
  statements = statements;
  current = current;
  mode = mode;
  dollar_tag = [];
}

-- A code unit that begins nothing.
abbrev pub IsPlain : ℕ → Type 0
IsPlain c = (c ≢ b';') × (c ≢ b'\'') × (c ≢ b'-') × (c ≢ b'/') × (c ≢ b'$') × (c ≢ b'\\')

answer-plain :
    (prev : Option ℕ) (c : ℕ) (s : Text) (acc : List Text) (cur : Text)
    → IsPlain c
    → answer prev (c ∷ s) (at default acc cur) ≡ answer (some c) s (at default acc (cur ++ c ∷ []))
unfolding step default_step default_rest tag_match advance
answer-plain prev c s acc cur (semi, quote, dash, slash, dollar, back) =
    answer-step prev c s (at default acc cur) (at default acc (cur ++ c ∷ []), 1) tt (ground arith)

answer-semicolon :
    (prev : Option ℕ) (s : Text) (acc : List Text) (cur : Text)
    → answer prev (b';' ∷ s) (at default acc cur)
      ≡ answer (some b';') s (at default (push_statement acc (trim cur)) [])
unfolding step default_step default_rest tag_match advance
answer-semicolon prev s acc cur =
    answer-step prev b';' s (at default acc cur) (at default (push_statement acc (trim cur)) [], 1)
      tt refl

-- A quote of a string written twice.
abbrev pub escape : Text → Text
escape [] = []
escape (c ∷ s) = let rest = escape s in if nat_beq c b'\'' then b'\'' ∷ b'\'' ∷ rest else c ∷ rest

regroup :
    (prev : Option ℕ) (rest : Text) (acc : List Text) (a b d : Text)
    → answer prev rest (at default acc ((a ++ b) ++ d))
      ≡ answer prev rest (at default acc (a ++ (b ++ d)))
regroup prev rest acc a b d = ap (λ t. answer prev rest (at default acc t)) (append_assoc a b d)

answer-escape :
    (prev : Option ℕ) (body rest : Text) (acc : List Text) (cur : Text)
    → next_is b'\'' rest ≡ false
    → answer prev (escape body ++ b'\'' ∷ rest) (at single_quote acc cur)
      ≡ answer (some b'\'') rest (at default acc (cur ++ (escape body ++ b'\'' ∷ [])))
unfolding step advance
answer-escape prev [] rest acc cur apart =
    answer-step prev b'\'' rest (at single_quote acc cur) (at default acc (cur ++ b'\'' ∷ []), 1) tt
      (rw apart refl)
answer-escape prev (c ∷ body) rest acc cur apart = elim (Bool-cases (nat_beq c b'\'')) [
  | inl quote ↦ rw quote (
      answer-step prev b'\'' (b'\'' ∷ escape body ++ b'\'' ∷ rest) (at single_quote acc cur)
        (at single_quote acc (cur ++ b'\'' ∷ b'\'' ∷ []), 2) tt refl
      ∙ answer-escape (some b'\'') body rest acc (cur ++ b'\'' ∷ b'\'' ∷ []) apart
      ∙ regroup (some b'\'') rest acc cur (b'\'' ∷ b'\'' ∷ []) (escape body ++ b'\'' ∷ []))
  | inr other ↦ rw other (
      answer-step prev c (escape body ++ b'\'' ∷ rest) (at single_quote acc cur)
        (at single_quote acc (cur ++ c ∷ []), 1) tt (rw other refl)
      ∙ answer-escape (some c) body rest acc (cur ++ c ∷ []) apart
      ∙ regroup (some b'\'') rest acc cur (c ∷ []) (escape body ++ b'\'' ∷ []))
]

answer-comment :
    (prev : Option ℕ) (body rest : Text) (acc : List Text) (cur : Text)
    → Lacks b'\n' body
    → answer prev (body ++ b'\n' ∷ rest) (at line_comment acc cur)
      ≡ answer (some b'\n') rest (at default acc (cur ++ (body ++ b'\n' ∷ [])))
unfolding step advance
answer-comment prev [] rest acc cur lacks =
    answer-step prev b'\n' rest (at line_comment acc cur) (at default acc (cur ++ b'\n' ∷ []), 1) tt
      refl
answer-comment prev (c ∷ body) rest acc cur (lack, lacks) =
    answer-step prev c (body ++ b'\n' ∷ rest) (at line_comment acc cur)
      (at line_comment acc (cur ++ c ∷ []), 1) tt (ground arith)
    ∙ answer-comment (some c) body rest acc (cur ++ c ∷ []) lacks
    ∙ regroup (some b'\n') rest acc cur (c ∷ []) (body ++ b'\n' ∷ [])

pub data Lexeme : Type 0 where
  plain : (c : ℕ) → Lexeme
  quoted : (body : Text) → Lexeme
  comment : (body : Text) → Lexeme

abbrev pub lexeme_text : Lexeme → Text
lexeme_text (plain c) = c ∷ []
lexeme_text (quoted body) = b'\'' ∷ escape body ++ b'\'' ∷ []
lexeme_text (comment body) = b'-' ∷ b'-' ∷ body ++ b'\n' ∷ []

abbrev pub text_of : List Lexeme → Text
text_of [] = []
text_of (l ∷ ls) = lexeme_text l ++ text_of ls

abbrev IsQuoted : List Lexeme → Type 0
IsQuoted [] = ⊥
IsQuoted (plain c ∷ ls) = ⊥
IsQuoted (quoted body ∷ ls) = Unit
IsQuoted (comment body ∷ ls) = ⊥

-- Lexemes that stay apart when they are written one after the other.
abbrev pub IsWritten : List Lexeme → Type 0
IsWritten [] = Unit
IsWritten (plain c ∷ ls) = IsPlain c × IsWritten ls
IsWritten (quoted body ∷ ls) = ¬ IsQuoted ls × IsWritten ls
IsWritten (comment body ∷ ls) = Lacks b'\n' body × IsWritten ls

next-text_of :
    (ls : List Lexeme) (rest : Text)
    → IsWritten ls
    → ¬ IsQuoted ls
    → next_is b'\'' (text_of ls ++ b';' ∷ rest) ≡ false
next-text_of [] rest w q = refl
next-text_of (plain c ∷ ls) rest (p, w) q = ground arith
next-text_of (quoted body ∷ ls) rest w q = absurd (q tt)
next-text_of (comment body ∷ ls) rest w q = refl

emit :
    (rest : Text) (acc : List Text) (a b d : Text)
    → answer (some b';') rest (at default (push_statement acc (trim ((a ++ b) ++ d))) [])
      ≡ answer (some b';') rest (at default (push_statement acc (trim (a ++ (b ++ d)))) [])
emit rest acc a b d =
    ap (λ t. answer (some b';') rest (at default (push_statement acc (trim t)) []))
      (append_assoc a b d)

-- A lexeme's end, before what follows.
regroup_end : (x : ℕ) (a b d : Text) → ((a ++ x ∷ []) ++ b) ++ d ≡ a ++ x ∷ (b ++ d)
regroup_end x a b d = append_assoc (a ++ x ∷ []) b d ∙ append_assoc a (x ∷ []) (b ++ d)

answer-text_of :
    (prev : Option ℕ) (ls : List Lexeme) (rest : Text) (acc : List Text) (cur : Text)
    → IsWritten ls
    → answer prev (text_of ls ++ b';' ∷ rest) (at default acc cur)
      ≡ answer (some b';') rest (at default (push_statement acc (trim (cur ++ text_of ls))) [])
unfolding step default_step advance
answer-text_of prev [] rest acc cur w =
    answer-semicolon prev rest acc cur
    ∙ ap (λ t. answer (some b';') rest (at default (push_statement acc (trim t)) []))
        (sym (append-nil cur))
answer-text_of prev (plain c ∷ ls) rest acc cur (p, w) =
    answer-plain prev c (text_of ls ++ b';' ∷ rest) acc cur p
    ∙ answer-text_of (some c) ls rest acc (cur ++ c ∷ []) w
    ∙ emit rest acc cur (c ∷ []) (text_of ls)
answer-text_of prev (quoted body ∷ ls) rest acc cur (q, w) =
    let more = text_of ls ++ b';' ∷ rest in
    ap (λ t. answer prev (b'\'' ∷ t) (at default acc cur))
      (regroup_end b'\'' (escape body) (text_of ls) (b';' ∷ rest))
    ∙ answer-step prev b'\'' (escape body ++ b'\'' ∷ more) (at default acc cur)
        (at single_quote acc (cur ++ b'\'' ∷ []), 1) tt refl
    ∙ answer-escape (some b'\'') body more acc (cur ++ b'\'' ∷ []) (next-text_of ls rest w q)
    ∙ regroup (some b'\'') more acc cur (b'\'' ∷ []) (escape body ++ b'\'' ∷ [])
    ∙ answer-text_of (some b'\'') ls rest acc (cur ++ lexeme_text (quoted body)) w
    ∙ emit rest acc cur (lexeme_text (quoted body)) (text_of ls)
answer-text_of prev (comment body ∷ ls) rest acc cur (lacks, w) =
    let more = text_of ls ++ b';' ∷ rest in
    ap (λ t. answer prev (b'-' ∷ b'-' ∷ t) (at default acc cur))
      (regroup_end b'\n' body (text_of ls) (b';' ∷ rest))
    ∙ answer-step prev b'-' (b'-' ∷ body ++ b'\n' ∷ more) (at default acc cur)
        (at line_comment acc (cur ++ b'-' ∷ []), 1) tt refl
    ∙ answer-comment (some b'-') (b'-' ∷ body) more acc (cur ++ b'-' ∷ [])
        ((λ e. absurd (omega (arith, e))), lacks)
    ∙ regroup (some b'\n') more acc cur (b'-' ∷ []) (b'-' ∷ body ++ b'\n' ∷ [])
    ∙ answer-text_of (some b'\n') ls rest acc (cur ++ lexeme_text (comment body)) w
    ∙ emit rest acc cur (lexeme_text (comment body)) (text_of ls)

-- A dump: each statement with its semicolon.
abbrev pub dump_of : List (List Lexeme) → Text
dump_of [] = []
dump_of (ls ∷ rest) = text_of ls ++ b';' ∷ dump_of rest

abbrev pub AllWritten : List (List Lexeme) → Type 0
AllWritten [] = Unit
AllWritten (ls ∷ rest) = IsWritten ls × AllWritten rest

-- The texts of the statements that are not blank.
abbrev pub add_texts : List Text → List (List Lexeme) → List Text
add_texts acc [] = acc
add_texts acc (ls ∷ rest) = add_texts (push_statement acc (trim (text_of ls))) rest

answer-dump_of :
    (prev : Option ℕ) (dump : List (List Lexeme)) (acc : List Text)
    → AllWritten dump
    → answer prev (dump_of dump) (at default acc []) ≡ some (at default (add_texts acc dump) [])
unfolding scan
answer-dump_of prev [] acc w = refl
answer-dump_of prev (ls ∷ dump) acc (w, ws) =
    answer-text_of prev ls (dump_of dump) acc [] w
    ∙ answer-dump_of (some b';') dump (push_statement acc (trim (text_of ls))) ws

-- A dump of statements, each of strings in quotes (with their quotes written twice), line comments
-- and other code units without `;`, `'`, `-`, `/`, `$` and `\`, where no string stands directly
-- behind another, and each statement with a semicolon behind it, is split into the statements'
-- trimmed texts without the blank ones: a semicolon or a quote inside a string or a comment, and
-- a line there that begins with a backslash, splits nothing and drops nothing.
pub split_sql_statements-dump_of :
    (dump : List (List Lexeme))
    → AllWritten dump
    → split_sql_statements (dump_of dump) ≡ some (add_texts [] dump)
unfolding split_sql_statements trailing
split_sql_statements-dump_of dump w = ap finish (answer-dump_of none dump [] w)
