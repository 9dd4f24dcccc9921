-- ===== src/Sql/Splitter/Tests.antt =====
-- The splitter of statements on concrete dumps, and witnesses.
use adonisjs_lasagna_multite.Prelude.{◌&&◌, not, nat_beq, ℕ, Bool, true, nat_beq}
use adonisjs_lasagna_multite.Prelude.{◌&&◌, not, nat_beq, ℕ, Bool, true, not}
use adonisjs_lasagna_multite.Sql.Splitter.Lexemes.{IsPlain}
use adonisjs_lasagna_multite.Prelude.{◌&&◌, not, nat_beq, ℕ, Bool, true, Bool, true}
use adonisjs_lasagna_multite.Prelude.Texts.Laws.{all-Lacks, all-Lacks}
use adonisjs_lasagna_multite.Prelude.{◌&&◌, not, nat_beq, ℕ, Bool, true, ℕ}
use adonisjs_lasagna_multite.Sql.Splitter.Lexemes.{IsWritten}
use adonisjs_lasagna_multite.Prelude.{◌&&◌, not, nat_beq, ℕ, Bool, true, List}
use adonisjs_lasagna_multite.Prelude.{
  ◌&&◌, not, nat_beq, ℕ, Bool, true, ◌≡◌, refl, some, [], ◌∷◌, arith, codes, All,
}
use adonisjs_lasagna_multite.Prelude.Texts.Laws.{all-Lacks}
use adonisjs_lasagna_multite.Sql.Splitter.{split_sql_statements}
use adonisjs_lasagna_multite.Sql.Splitter.Lexemes.{
  Lexeme, plain, quoted, comment, dump_of, AllWritten, split_sql_statements-dump_of,
}
use adonisjs_lasagna_multite.Sql.Splitter.Statements.{IsStatement, split_sql_statements-IsStatement}
use adonisjs_lasagna_multite.Sql.Splitter.Termination.{split_sql_statements_total}

split_sql_statements_tests :
    (split_sql_statements (codes "a; b 'x;''y' ; ; c")
      ≡ some (codes "a" ∷ codes "b 'x;''y'" ∷ codes "c" ∷ []))
    × (split_sql_statements (codes "do $$ x; $$; -- a;\nb")
        ≡ some (codes "do $$ x; $$" ∷ codes "-- a;\nb" ∷ []))
    × (split_sql_statements (codes "a;\n\\connect x;y\nb;") ≡ some (codes "a" ∷ codes "b" ∷ []))
    × (split_sql_statements (codes "/* ; */ a") ≡ some (codes "/* ; */ a" ∷ []))
unfolding split_sql_statements
split_sql_statements_tests = (refl, refl, refl, refl)

split_sql_statements_total_example :
    (statements : _) × (split_sql_statements (codes "a; b") ≡ some statements)
split_sql_statements_total_example = split_sql_statements_total (codes "a; b")

split_sql_statements-IsStatement_example : All IsStatement (codes "a" ∷ codes "b" ∷ [])
unfolding split_sql_statements
split_sql_statements-IsStatement_example = split_sql_statements-IsStatement (codes "a ;\n b") refl

abbrev insertion : List Lexeme
insertion = plain b'a' ∷ quoted (codes "x';") ∷ plain b' ' ∷ comment (codes " b; '") ∷ []

abbrev is_plain : ℕ → Bool
is_plain c =
    not (nat_beq c b';')
    && not (nat_beq c b'\'')
    && not (nat_beq c b'-')
    && not (nat_beq c b'/')
    && not (nat_beq c b'$')
    && not (nat_beq c b'\\')

is_plain-IsPlain : (c : ℕ) → is_plain c ≡ true → IsPlain c
is_plain-IsPlain c e = ground arith

insertion-IsWritten : IsWritten insertion
insertion-IsWritten = (
  is_plain-IsPlain b'a' refl,
  ((λ q. q), (is_plain-IsPlain b' ' refl, (all-Lacks b'\n' (codes " b; '") refl, tt))),
)

insertions-AllWritten : AllWritten (insertion ∷ (plain b' ' ∷ []) ∷ insertion ∷ [])
insertions-AllWritten =
    (insertion-IsWritten, ((is_plain-IsPlain b' ' refl, tt), (insertion-IsWritten, tt)))

split_sql_statements-dump_of_example :
    split_sql_statements (dump_of (insertion ∷ (plain b' ' ∷ []) ∷ insertion ∷ []))
    ≡ some (codes "a'x'';' -- b; '" ∷ codes "a'x'';' -- b; '" ∷ [])
split_sql_statements-dump_of_example =
    split_sql_statements-dump_of (insertion ∷ (plain b' ' ∷ []) ∷ insertion ∷ [])
      insertions-AllWritten
