-- ===== src/Sql/Tagged/Sections.antt =====
-- Dumps with COPY blocks, and what `splitSqlStatementsTagged` (src/utils/sql_splitter.ts) makes of
-- them.
use adonisjs_lasagna_multite.Prelude.{
  ℕ, ◌≡◌, ◌≢◌, refl, sym, ◌∙◌, ap, true, false, Option, none, some, List, [], ◌∷◌, ◌++◌, arith, All,
  Text, codes, split, ◌==◌, list_eq, All-append, nat_beq, push_first, beq_ne,
}
use mathlib.Core.List.{append-nil, append_assoc}
use adonisjs_lasagna_multite.Prelude.Texts.Laws.{Lacks}
use adonisjs_lasagna_multite.Sql.Tagged.{
  SqlToken, copy, is_copy_line, copy_header, join_lines, flush_buffer, buffering, copying, TagState,
  start_copy, tag_line, tag_lines, end_lines, split_sql_statements_tagged,
}

-- Lines of SQL, the line that opens a COPY block, and the block's rows.
pub record Block : Type 0 where
  pub lines : List Text
  pub opening : Text
  pub rows : List Text

abbrev terminator : Text
terminator = codes "\\."

abbrev IsSqlLine : Text → Type 0
IsSqlLine l = (is_copy_line l ≡ false) × Lacks b'\n' l

abbrev IsRow : Text → Type 0
IsRow r = (r ≢ terminator) × Lacks b'\n' r

abbrev pub IsBlock : Block → Type 0
IsBlock b =
    All IsSqlLine b.lines
    × (is_copy_line b.opening ≡ true)
    × Lacks b'\n' b.opening
    × All IsRow b.rows

abbrev pub lines_of : List Block → List Text → List Text
lines_of [] last = last
lines_of (b ∷ bs) last = b.lines ++ (b.opening ∷ b.rows ++ terminator ∷ lines_of bs last)

-- The tokens of the blocks, one block after the other.
abbrev pub block_tokens : Block → Option (List SqlToken) → Option (List SqlToken)
block_tokens b none = none
block_tokens b (some tokens) = some (tokens ++ copy (copy_header b.opening) b.rows ∷ [])

abbrev flush : List Text → Option (List SqlToken) → Option (List SqlToken)
flush ls none = none
flush ls (some tokens) = flush_buffer ls tokens

abbrev pub tokens_of : Option (List SqlToken) → List Block → List Text → Option (List SqlToken)
tokens_of tokens [] last = flush last tokens
tokens_of tokens (b ∷ bs) last = tokens_of (block_tokens b (flush b.lines tokens)) bs last

tag_lines-append :
    (st : TagState) (a b : List Text) → tag_lines st (a ++ b) ≡ tag_lines (tag_lines st a) b
unfolding tag_lines
tag_lines-append st [] b = refl
tag_lines-append st (l ∷ a) b = tag_lines-append (tag_line st l) a b

tag_lines-buffering :
    (buffer : List Text) (tokens : List SqlToken) (ls : List Text)
    → All IsSqlLine ls
    → tag_lines (some (buffering buffer, tokens)) ls ≡ some (buffering (buffer ++ ls), tokens)
unfolding tag_lines tag_line
tag_lines-buffering buffer tokens [] h =
    ap (λ b. some (buffering b, tokens)) (sym (append-nil buffer))
tag_lines-buffering buffer tokens (l ∷ ls) ((plain, lack), h) = rw plain (
    tag_lines-buffering (buffer ++ l ∷ []) tokens ls h
    ∙ ap (λ b. some (buffering b, tokens)) (append_assoc buffer (l ∷ []) ls))

tag_line-row :
    (header : Text) (rows : List Text) (tokens : List SqlToken) (r : Text)
    → r ≢ terminator
    → tag_line (some (copying header rows, tokens)) r
      ≡ some (copying header (rows ++ r ∷ []), tokens)
unfolding tag_line
tag_line-row header rows tokens r other =
    let no_end : (r == terminator) ≡ false = beq_ne other in rw no_end

tag_lines-copying :
    (header : Text) (rows : List Text) (tokens : List SqlToken) (rs rest : List Text)
    → All IsRow rs
    → tag_lines (some (copying header rows, tokens)) (rs ++ terminator ∷ rest)
      ≡ tag_lines (some (buffering [], tokens ++ copy header (rows ++ rs) ∷ [])) rest
unfolding tag_lines tag_line
tag_lines-copying header rows tokens [] rest h =
    ap (λ r. tag_lines (some (buffering [], tokens ++ copy header r ∷ [])) rest)
      (sym (append-nil rows))
tag_lines-copying header rows tokens (r ∷ rs) rest ((other, lack), h) =
    ap (λ st. tag_lines st (rs ++ terminator ∷ rest)) (tag_line-row header rows tokens r other)
    ∙ tag_lines-copying header (rows ++ r ∷ []) tokens rs rest h
    ∙ ap (λ t. tag_lines (some (buffering [], tokens ++ copy header t ∷ [])) rest)
        (append_assoc rows (r ∷ []) rs)

tag_lines-none : (ls : List Text) → tag_lines none ls ≡ none
unfolding tag_lines tag_line
tag_lines-none [] = refl
tag_lines-none (l ∷ ls) = tag_lines-none ls

tag_line-opening :
    (buffer : List Text) (tokens : List SqlToken) (line : Text)
    → is_copy_line line ≡ true
    → tag_line (some (buffering buffer, tokens)) line ≡ start_copy line (flush_buffer buffer tokens)
unfolding tag_line
tag_line-opening buffer tokens line opens = rw opens

tokens_of-none : (bs : List Block) (last : List Text) → tokens_of none bs last ≡ none
tokens_of-none [] last = refl
tokens_of-none (b ∷ bs) last = tokens_of-none bs last

after_flush :
    (b : Block) (bs : List Block) (last : List Text) (flushed : Option (List SqlToken))
    → All IsRow b.rows
    → ((tokens : List SqlToken)
        → end_lines (tag_lines (some (buffering [], tokens)) (lines_of bs last))
          ≡ tokens_of (some tokens) bs last)
    → end_lines (tag_lines (start_copy b.opening flushed) (b.rows ++ terminator ∷ lines_of bs last))
      ≡ tokens_of (block_tokens b flushed) bs last
unfolding end_lines
after_flush b bs last none rows more =
    ap end_lines (tag_lines-none (b.rows ++ terminator ∷ lines_of bs last))
    ∙ sym (tokens_of-none bs last)
after_flush b bs last (some tokens) rows more =
    ap end_lines
      (tag_lines-copying (copy_header b.opening) [] tokens b.rows (lines_of bs last) rows)
    ∙ more (tokens ++ copy (copy_header b.opening) b.rows ∷ [])

end_lines-lines_of :
    (tokens : List SqlToken) (bs : List Block) (last : List Text)
    → All IsBlock bs
    → All IsSqlLine last
    → end_lines (tag_lines (some (buffering [], tokens)) (lines_of bs last))
      ≡ tokens_of (some tokens) bs last
unfolding end_lines tag_lines tag_line
end_lines-lines_of tokens [] last h t = ap end_lines (tag_lines-buffering [] tokens last t)
end_lines-lines_of tokens (b ∷ bs) last ((lines, opens, lack, rows), h) t =
    let rest = b.opening ∷ (b.rows ++ terminator ∷ lines_of bs last) in
    ap end_lines (tag_lines-append (some (buffering [], tokens)) b.lines rest)
    ∙ ap (λ st. end_lines (tag_lines st rest)) (tag_lines-buffering [] tokens b.lines lines)
    ∙ ap (λ st. end_lines (tag_lines st (b.rows ++ terminator ∷ lines_of bs last)))
        (tag_line-opening b.lines tokens b.opening opens)
    ∙ after_flush b bs last (flush_buffer b.lines tokens) rows
        (λ more. end_lines-lines_of more bs last h t)

split-append : (d : ℕ) (a b : Text) → Lacks d a → split d (a ++ d ∷ b) ≡ a ∷ split d b
split-append d [] b h = let same : nat_beq d d ≡ true = ground arith in rw same
split-append d (c ∷ a) b (ne, h) =
    let other : nat_beq c d ≡ false = ground arith in
    rw other (ap (push_first c) (split-append d a b h))

split_all : (d : ℕ) (a : Text) → Lacks d a → split d a ≡ a ∷ []
split_all d [] h = refl
split_all d (c ∷ a) (ne, h) =
    let other : nat_beq c d ≡ false = ground arith in rw other (ap (push_first c) (split_all d a h))

-- Lines that hold no line break come back when their text is split.
split-join_lines :
    (l : Text) (ls : List Text)
    → All (Lacks b'\n') (l ∷ ls)
    → split b'\n' (join_lines (l ∷ ls)) ≡ l ∷ ls
split-join_lines l [] (h, tt) = split_all b'\n' l h
split-join_lines l (m ∷ ls) (h, hs) =
    split-append b'\n' l (join_lines (m ∷ ls)) h ∙ ap (λ t. l ∷ t) (split-join_lines m ls hs)

split-join_nonempty :
    (ls : List Text) → ls ≢ [] → All (Lacks b'\n') ls → split b'\n' (join_lines ls) ≡ ls
split-join_nonempty [] some_line h = absurd (some_line refl)
split-join_nonempty (l ∷ ls) some_line h = split-join_lines l ls h

append-nonempty : (a : List Text) (x : Text) (b : List Text) → a ++ x ∷ b ≢ []
append-nonempty [] x b e = cc
append-nonempty (y ∷ a) x b e = cc

lines_of-nonempty : (bs : List Block) (last : List Text) → last ≢ [] → lines_of bs last ≢ []
lines_of-nonempty [] last h = h
lines_of-nonempty (b ∷ bs) last h =
    append-nonempty b.lines b.opening (b.rows ++ terminator ∷ lines_of bs last)

sql_lines-Lacks : (ls : List Text) → All IsSqlLine ls → All (Lacks b'\n') ls
sql_lines-Lacks [] h = tt
sql_lines-Lacks (l ∷ ls) ((plain, lack), h) = (lack, sql_lines-Lacks ls h)

rows-Lacks : (rs : List Text) → All IsRow rs → All (Lacks b'\n') rs
rows-Lacks [] h = tt
rows-Lacks (r ∷ rs) ((other, lack), h) = (lack, rows-Lacks rs h)

terminator-Lacks : Lacks b'\n' terminator
terminator-Lacks = ((λ e. absurd (omega (arith, e))), ((λ e. absurd (omega (arith, e))), tt))

lines_of-Lacks :
    (bs : List Block) (last : List Text)
    → All IsBlock bs
    → All IsSqlLine last
    → All (Lacks b'\n') (lines_of bs last)
lines_of-Lacks [] last h t = sql_lines-Lacks last t
lines_of-Lacks (b ∷ bs) last ((lines, opens, lack, rows), h) t =
    let rest =
      All-append (Lacks b'\n') b.rows (terminator ∷ lines_of bs last) (rows-Lacks b.rows rows)
        (terminator-Lacks, lines_of-Lacks bs last h t) in
    All-append (Lacks b'\n') b.lines (b.opening ∷ (b.rows ++ terminator ∷ lines_of bs last))
      (sql_lines-Lacks b.lines lines) (lack, rest)

-- A dump is blocks and then lines of SQL, at least one and maybe an empty one; a block is lines of
-- SQL, a line `COPY … FROM stdin` that opens it, and rows up to the first line `\.`. Its tokens are
-- for each block the statements of its lines and then one token with the opening line's header and
-- exactly its rows, and at the end the statements of the last lines: no row goes through the
-- splitter of statements, whatever it holds.
pub split_sql_statements_tagged-lines_of :
    (bs : List Block) (last : List Text)
    → All IsBlock bs
    → All IsSqlLine last
    → last ≢ []
    → split_sql_statements_tagged (join_lines (lines_of bs last)) ≡ tokens_of (some []) bs last
unfolding split_sql_statements_tagged
split_sql_statements_tagged-lines_of bs last h t some_line =
    ap (λ ls. end_lines (tag_lines (some (buffering [], [])) ls))
      (split-join_nonempty (lines_of bs last) (lines_of-nonempty bs last some_line)
        (lines_of-Lacks bs last h t))
    ∙ end_lines-lines_of [] bs last h t
