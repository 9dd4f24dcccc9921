-- ===== src/Sql/Splitter.antt =====
-- `splitSqlStatements` of src/utils/sql_splitter.ts: the state machine over the code units of a
-- dump. A position is the code unit before it and the text from it on; the loop takes fuel, and
-- `none` means that it ran out.
pub mod Termination
pub mod Statements
pub mod Lexemes
mod Tests
use adonisjs_lasagna_multite.Prelude.{
  ℕ, zero, suc, Bool, true, false, ◌&&◌, ◌||◌, not, Option, none, some, List, [], ◌∷◌, ◌++◌, length,
  if◌then◌else◌, nat_beq, is_alphanumeric, ◌==◌, list_eq, Text, starts_with, trim,
}

pub data Mode : Type 0 where
  default single_quote line_comment block_comment dollar_quote : Mode

pub record Scan : Type 0 where
  pub statements : List Text
  pub current : Text
  pub mode : Mode
  pub dollar_tag : Text

abbrev pub start : Scan
start = record { statements = []; current = []; mode = default; dollar_tag = [] }

-- What a round does: the new variables, and by how much `i` grows.
abbrev pub Round : Type 0
Round = Scan × ℕ

abbrev pub next_is : ℕ → Text → Bool
next_is d [] = false
next_is d (c ∷ s) = nat_beq c d

abbrev is_tag_char : ℕ → Bool
is_tag_char c = is_alphanumeric c || nat_beq c b'_'

abbrev prefixed : ℕ → Option Text → Option Text
prefixed c none = none
prefixed c (some tag) = some (c ∷ tag)

-- `[A-Za-z0-9_]*\$` at the start of a text
pub tag_end : Text → Option Text
tag_end [] = none
tag_end (c ∷ s) =
    let more = prefixed c (tag_end s) in
    if nat_beq c b'$' then some (c ∷ []) else if is_tag_char c then more else none

-- `/^(\$[A-Za-z0-9_]*\$)/` on a text that begins with `c`
pub tag_match : ℕ → Text → Option Text
unfolding tag_end
tag_match c s = if nat_beq c b'$' then prefixed c (tag_end s) else none

abbrev pub push_statement : List Text → Text → List Text
push_statement statements [] = statements
push_statement statements (c ∷ s) = statements ++ (c ∷ s) ∷ []

-- `const eol = sql.indexOf('\n', i); i = eol === -1 ? len : eol + 1`, counted from `i`
pub skip_line : Text → ℕ
skip_line [] = 0
skip_line (c ∷ s) = if nat_beq c b'\n' then 1 else suc (skip_line s)

abbrev pub at_line_start : Option ℕ → Bool
at_line_start none = true
at_line_start (some c) = nat_beq c b'\n'

abbrev pub enter_mode : Mode → ℕ → Scan → Round
enter_mode mode c st = (record st { current = st.current ++ c ∷ []; mode = mode }, 1)

abbrev pub keep : ℕ → Scan → Round
keep c st = (record st { current = st.current ++ c ∷ [] }, 1)

-- the tests of the default mode below the dollar tag
pub default_rest : Option ℕ → ℕ → Text → Scan → Round
unfolding skip_line
default_rest prev c s st =
    if nat_beq c b';'
    then (
      record st { statements = push_statement st.statements (trim st.current); current = [] },
      1,
    )
    else if nat_beq c b'\\' && at_line_start prev
    then (st, skip_line (c ∷ s))
    else keep c st

abbrev pub open_dollar : Option Text → Round → Scan → Round
open_dollar none rest st = rest
open_dollar (some tag) rest st =
    (record st { current = st.current ++ tag; mode = dollar_quote; dollar_tag = tag }, length tag)

pub default_step : Option ℕ → ℕ → Text → Scan → Round
unfolding default_rest tag_match
default_step prev c s st =
    if nat_beq c b'-' && next_is b'-' s
    then enter_mode line_comment c st
    else if nat_beq c b'/' && next_is b'*' s
    then enter_mode block_comment c st
    else if nat_beq c b'\''
    then enter_mode single_quote c st
    else open_dollar (tag_match c s) (default_rest prev c s st) st

abbrev pub quote_step : ℕ → Text → Scan → Round
quote_step c s st =
    if nat_beq c b'\'' && next_is b'\'' s
    then (record st { current = st.current ++ c ∷ b'\'' ∷ [] }, 2)
    else if nat_beq c b'\''
    then enter_mode default c st
    else keep c st

abbrev pub line_comment_step : ℕ → Scan → Round
line_comment_step c st = if nat_beq c b'\n' then enter_mode default c st else keep c st

abbrev pub block_comment_step : ℕ → Text → Scan → Round
block_comment_step c s st =
    if nat_beq c b'*' && next_is b'/' s
    then (record st { current = st.current ++ c ∷ b'/' ∷ []; mode = default }, 2)
    else keep c st

abbrev pub dollar_step : ℕ → Text → Scan → Round
dollar_step c s st =
    if starts_with (c ∷ s) st.dollar_tag
    then (
      record st { current = st.current ++ st.dollar_tag; mode = default; dollar_tag = [] },
      length st.dollar_tag,
    )
    else keep c st

-- the `switch`
pub step : Mode → Option ℕ → ℕ → Text → Scan → Round
unfolding default_step
step default prev c s st = default_step prev c s st
step single_quote prev c s st = quote_step c s st
step line_comment prev c s st = line_comment_step c st
step block_comment prev c s st = block_comment_step c s st
step dollar_quote prev c s st = dollar_step c s st

-- A position that many code units further.
pub advance : ℕ → Option ℕ → Text → Option ℕ × Text
advance zero prev s = (prev, s)
advance (suc n) prev [] = (prev, [])
advance (suc n) prev (c ∷ s) = advance n (some c) s

-- the `while` loop
pub scan : ℕ → Option ℕ → Text → Scan → Option Scan
scan zero prev s st = none
scan (suc fuel) prev [] st = some st
scan (suc fuel) prev (c ∷ s) st =
    let (st', n) = step st.mode prev c s st in
    let (prev', s') = advance n prev (c ∷ s) in scan fuel prev' s' st'

-- what stands behind the loop
pub trailing : Scan → List Text
trailing st =
    let last = trim st.current in
    if not (last == []) && not (last == b';' ∷ [])
    then st.statements ++ last ∷ []
    else st.statements

abbrev pub finish : Option Scan → Option (List Text)
finish none = none
finish (some st) = some (trailing st)

unfoldable pub split_sql_statements : Text → Option (List Text)
unfolding scan step advance trailing
split_sql_statements sql = finish (scan (suc (length sql)) none sql start)
