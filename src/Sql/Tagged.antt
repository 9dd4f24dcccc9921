-- ===== src/Sql/Tagged.antt =====
-- `splitSqlStatementsTagged` of src/utils/sql_splitter.ts: a dump's lines, read in two modes. The
-- lines outside COPY blocks go through `split_sql_statements`, whose `none` (no fuel left) is
-- passed on.
pub mod Sections
pub mod Totality
mod Tests
use adonisjs_lasagna_multite.Prelude.{
  ℕ, Bool, true, false, ◌&&◌, ◌||◌, not, Option, none, some, List, [], ◌∷◌, ◌++◌, if◌then◌else◌,
  nat_beq, is_alphanumeric, is_lower, is_space, ◌==◌, list_eq, ◌-◌, Text, codes, split, trim,
}
use adonisjs_lasagna_multite.Sql.Splitter.{split_sql_statements}

pub data SqlToken : Type 0 where
  sql : (text : Text) → SqlToken
  copy : (header : Text) (rows : List Text) → SqlToken

abbrev to_upper : ℕ → ℕ
to_upper c = if is_lower c then c - 32 else c

abbrev is_word_char : ℕ → Bool
is_word_char c = is_alphanumeric c || nat_beq c b'_'

-- what `.` does not match
abbrev is_line_end : ℕ → Bool
is_line_end c = nat_beq c 10 || nat_beq c 13 || nat_beq c 8232 || nat_beq c 8233

-- `word` at the start of a text, its case ignored, and then `rest`
abbrev word_then : Text → (Text → Bool) → Text → Bool
word_then [] rest s = rest s
word_then (d ∷ word) rest [] = false
word_then (d ∷ word) rest (c ∷ s) = nat_beq (to_upper c) d && word_then word rest s

-- `\s+` and then `rest`, after any number of the spaces
abbrev spaces_then : (Text → Bool) → Text → Bool
spaces_then rest [] = false
spaces_then rest (c ∷ s) = is_space c && (rest s || spaces_then rest s)

-- `.+` and then `rest`
abbrev any_then : (Text → Bool) → Text → Bool
any_then rest [] = false
any_then rest (c ∷ s) = not (is_line_end c) && (rest s || any_then rest s)

-- `\b` after a word
abbrev word_ends : Text → Bool
word_ends [] = true
word_ends (c ∷ s) = not (is_word_char c)

-- `\sFROM\s+stdin\b`
abbrev from_stdin : Text → Bool
from_stdin [] = false
from_stdin (c ∷ s) =
    is_space c && word_then (codes "FROM") (spaces_then (word_then (codes "STDIN") word_ends)) s

-- `COPY_FROM_STDIN_RE.test(line)`
pub is_copy_line : Text → Bool
is_copy_line [] = false
is_copy_line (c ∷ s) =
    word_then (codes "COPY") (spaces_then (any_then from_stdin)) (c ∷ s)
    || (is_space c && is_copy_line s)

abbrev all_spaces : Text → Bool
all_spaces [] = true
all_spaces (c ∷ s) = is_space c && all_spaces s

-- `line.replace(/;\s*$/, '')`
pub without_semicolon : Text → Text
without_semicolon [] = []
without_semicolon (c ∷ s) =
    let rest = without_semicolon s in if nat_beq c b';' && all_spaces s then [] else c ∷ rest

abbrev pub copy_header : Text → Text
copy_header line = trim (without_semicolon line)

-- `lines.join('\n')`
abbrev pub join_lines : List Text → Text
join_lines [] = []
join_lines (l ∷ []) = l
join_lines (l ∷ m ∷ ls) = l ++ b'\n' ∷ join_lines (m ∷ ls)

abbrev pub sql_tokens : List Text → List SqlToken
sql_tokens [] = []
sql_tokens (s ∷ ss) = sql s ∷ sql_tokens ss

abbrev pub push_sql : List SqlToken → Option (List Text) → Option (List SqlToken)
push_sql tokens none = none
push_sql tokens (some statements) = some (tokens ++ sql_tokens statements)

-- `flushBuffer`
pub flush_buffer : List Text → List SqlToken → Option (List SqlToken)
flush_buffer [] tokens = some tokens
flush_buffer (l ∷ ls) tokens = push_sql tokens (split_sql_statements (join_lines (l ∷ ls)))

-- Which of the two loops reads the line, with its variables.
pub data Reading : Type 0 where
  buffering : (buffer : List Text) → Reading
  copying : (header : Text) (rows : List Text) → Reading

abbrev pub TagState : Type 0
TagState = Option (Reading × List SqlToken)

abbrev pub start_copy : Text → Option (List SqlToken) → TagState
start_copy line none = none
start_copy line (some tokens) = some (copying (copy_header line) [], tokens)

-- a line of the loop that it is in
pub tag_line : TagState → Text → TagState
unfolding flush_buffer is_copy_line without_semicolon
tag_line none line = none
tag_line (some (buffering buffer, tokens)) line =
    if is_copy_line line
    then start_copy line (flush_buffer buffer tokens)
    else some (buffering (buffer ++ line ∷ []), tokens)
tag_line (some (copying header rows, tokens)) line =
    if line == codes "\\."
    then some (buffering [], tokens ++ copy header rows ∷ [])
    else some (copying header (rows ++ line ∷ []), tokens)

pub tag_lines : TagState → List Text → TagState
unfolding tag_line
tag_lines st [] = st
tag_lines st (line ∷ lines) = tag_lines (tag_line st line) lines

-- what stands behind the loops
pub end_lines : TagState → Option (List SqlToken)
unfolding flush_buffer
end_lines none = none
end_lines (some (buffering buffer, tokens)) = flush_buffer buffer tokens
end_lines (some (copying header rows, tokens)) = flush_buffer [] (tokens ++ copy header rows ∷ [])

pub split_sql_statements_tagged : Text → Option (List SqlToken)
unfolding tag_lines end_lines
split_sql_statements_tagged s = end_lines (tag_lines (some (buffering [], [])) (split b'\n' s))
