-- ===== src/Sql/Tagged/Tests.antt =====
-- The tagged splitter on concrete dumps, and witnesses.
use adonisjs_lasagna_multite.Prelude.{◌==◌, list_eq, list_beq_iff, ◌≢◌, Text, Text}
use adonisjs_lasagna_multite.Prelude.{◌==◌, list_eq, list_beq_iff, ◌≢◌, Text, List}
use adonisjs_lasagna_multite.Prelude.{
  ◌==◌, list_eq, list_beq_iff, ◌≢◌, Text, ◌≡◌, refl, some, [], ◌∷◌, arith, codes, true, false,
}
use adonisjs_lasagna_multite.Sql.Splitter.{split_sql_statements}
use adonisjs_lasagna_multite.Prelude.Texts.Laws.{all-Lacks}
use adonisjs_lasagna_multite.Sql.Tagged.{
  SqlToken, sql, copy, is_copy_line, without_semicolon, copy_header, split_sql_statements_tagged,
  join_lines,
}
use adonisjs_lasagna_multite.Sql.Tagged.Sections.{
  Block, lines_of, split_sql_statements_tagged-lines_of, tokens_of,
}

is_copy_line_tests :
    (is_copy_line (codes "COPY public.t (id) FROM stdin;") ≡ true)
    × (is_copy_line (codes "  copy t  from STDIN") ≡ true)
    × (is_copy_line (codes "COPY t FROM stdinx") ≡ false)
    × (is_copy_line (codes "COPY FROM stdin") ≡ false)
    × (copy_header (codes "COPY t FROM stdin; ") ≡ codes "COPY t FROM stdin")
unfolding is_copy_line without_semicolon
is_copy_line_tests = (refl, refl, refl, refl, refl)

abbrev block : Block
block = record {
  lines = codes "a;" ∷ [];
  opening = codes "COPY t FROM stdin;";
  rows = codes "1\tx;" ∷ codes "--" ∷ [];
}

abbrev dump_tokens : List SqlToken
dump_tokens =
    sql (codes "a")
    ∷ copy (codes "COPY t FROM stdin") (codes "1\tx;" ∷ codes "--" ∷ [])
    ∷ sql (codes "b")
    ∷ []

split_sql_statements_tagged_tests :
    split_sql_statements_tagged (codes "a;\nCOPY t FROM stdin;\n1\tx;\n--\n\\.\nb")
    ≡ some dump_tokens
unfolding split_sql_statements_tagged split_sql_statements
split_sql_statements_tagged_tests = refl

row-ne : (a b : Text) → (a == b) ≡ false → a ≢ b
row-ne a b e = ground (arith, list_beq_iff a b)

split_sql_statements_tagged-lines_of_example :
    split_sql_statements_tagged (join_lines (lines_of (block ∷ []) (codes "b" ∷ [])))
    ≡ tokens_of (some []) (block ∷ []) (codes "b" ∷ [])
unfolding is_copy_line
split_sql_statements_tagged-lines_of_example =
    split_sql_statements_tagged-lines_of (block ∷ []) (codes "b" ∷ [])
      (
        ((
          ((refl, all-Lacks b'\n' (codes "a;") refl), tt),
          refl,
          all-Lacks b'\n' (codes "COPY t FROM stdin;") refl,
          (
            (row-ne (codes "1\tx;") (codes "\\.") refl, all-Lacks b'\n' (codes "1\tx;") refl),
            ((row-ne (codes "--") (codes "\\.") refl, all-Lacks b'\n' (codes "--") refl), tt),
          ),
        )),
        tt,
      )
      ((refl, all-Lacks b'\n' (codes "b") refl), tt) (λ e. cc)
