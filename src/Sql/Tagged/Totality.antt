-- ===== src/Sql/Tagged/Totality.antt =====
-- `splitSqlStatementsTagged` (src/utils/sql_splitter.ts) ends on every text.
use adonisjs_lasagna_multite.Prelude.{
  ◌≡◌, refl, ap, none, some, List, [], ◌∷◌, ◌++◌, Bool-cases, inl, inr, Text, codes, split, ◌==◌,
  list_eq,
}
use adonisjs_lasagna_multite.Sql.Splitter.Termination.{split_sql_statements_total}
use adonisjs_lasagna_multite.Sql.Tagged.{
  SqlToken, copy, is_copy_line, copy_header, join_lines, sql_tokens, push_sql, flush_buffer,
  Reading, buffering, copying, TagState, start_copy, tag_line, tag_lines, end_lines,
  split_sql_statements_tagged,
}

-- A state with its tokens.
abbrev IsAlive : TagState → Type 0
IsAlive st = (reading : Reading) × (tokens : List SqlToken) × (st ≡ some (reading, tokens))

flush_buffer_total :
    (buffer : List Text) (tokens : List SqlToken)
    → (more : List SqlToken) × (flush_buffer buffer tokens ≡ some more)
unfolding flush_buffer
flush_buffer_total [] tokens = (tokens, refl)
flush_buffer_total (l ∷ ls) tokens =
    let (statements, e) = split_sql_statements_total (join_lines (l ∷ ls)) in
    (tokens ++ sql_tokens statements, ap (push_sql tokens) e)

tag_line-IsAlive : (st : TagState) (line : Text) → IsAlive st → IsAlive (tag_line st line)
unfolding tag_line
tag_line-IsAlive none line (reading, tokens, e) = absurd (cc)
tag_line-IsAlive (some (buffering buffer, tokens)) line alive =
    let (more, e) = flush_buffer_total buffer tokens in
    elim (Bool-cases (is_copy_line line)) [
      | inl opens ↦ rw opens (copying (copy_header line) [], more, ap (start_copy line) e)
      | inr plain ↦ rw plain (buffering (buffer ++ line ∷ []), tokens, refl)
    ]
tag_line-IsAlive (some (copying header rows, tokens)) line alive =
    elim (Bool-cases (line == codes "\\.")) [
      | inl ends ↦ rw ends (buffering [], tokens ++ copy header rows ∷ [], refl)
      | inr row ↦ rw row (copying header (rows ++ line ∷ []), tokens, refl)
    ]

tag_lines-IsAlive : (st : TagState) (ls : List Text) → IsAlive st → IsAlive (tag_lines st ls)
unfolding tag_lines
tag_lines-IsAlive st [] h = h
tag_lines-IsAlive st (l ∷ ls) h = tag_lines-IsAlive (tag_line st l) ls (tag_line-IsAlive st l h)

end_lines_total :
    (st : TagState) → IsAlive st → (tokens : List SqlToken) × (end_lines st ≡ some tokens)
unfolding end_lines
end_lines_total none (reading, tokens, e) = absurd (cc)
end_lines_total (some (buffering buffer, tokens)) h = flush_buffer_total buffer tokens
end_lines_total (some (copying header rows, tokens)) h =
    flush_buffer_total [] (tokens ++ copy header rows ∷ [])

-- Every text has tokens: neither the loop over the lines nor a splitting of the buffered lines
-- runs out of fuel.
pub split_sql_statements_tagged_total :
    (s : Text) → (tokens : List SqlToken) × (split_sql_statements_tagged s ≡ some tokens)
unfolding split_sql_statements_tagged
split_sql_statements_tagged_total s =
    end_lines_total (tag_lines (some (buffering [], [])) (split b'\n' s))
      (tag_lines-IsAlive (some (buffering [], [])) (split b'\n' s) (buffering [], [], refl))
