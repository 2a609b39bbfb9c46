-- ===== src/Sql/Compact/Tests.antt =====
-- Runs of the scanner, and the witnesses of its theorems.
use im_providers_service.Prelude.{◌≡◌, ◌≤◌, refl, true, [], ◌∷◌, ◌++◌, length, arith}
use im_providers_service.Prelude.Text.{codes}
use im_providers_service.Sql.Compact.Bounds.{length-compact_sql}
use im_providers_service.Sql.Compact.Words.{Part, IsPart, spread, spaced, compact_sql-words, idle}
use im_providers_service.Sql.Compact.Quotes.{
  compact_sql-literal, compact_sql-literal_dashes, quoting,
}
use im_providers_service.Sql.Compact.Comments.{compact_sql-block_comment}
use im_providers_service.Sql.Compact.{
  is_space, is_punct, is_quote, is_comment, is_literal, held, last_written, injected, output,
  text_step, step, scan, compact_sql,
}

scanner : Unit {0}
unfolding compact_sql scan step text_step output injected last_written held is_literal is_comment
    is_quote is_punct is_space
scanner = tt

select_list : compact_sql (codes "  select a ,  b\n from t -- all\n;") ≡ codes "select a,b from t;"
unfolding scanner
select_list = refl

block_comment : compact_sql (codes "select /* x */ 1") ≡ codes "select 1"
unfolding scanner
block_comment = refl

abbrev from_table : Part
from_table = record { gap = 32 ∷ 10 ∷ []; word = codes "from" }

from_table-IsPart : IsPart from_table
unfolding scanner
from_table-IsPart = record {
  has_gap = λ p. absurd (cc p);
  gap = (refl, (refl, tt));
  has_word = λ p. absurd (cc p);
  word = ((refl, refl), ((refl, refl), ((refl, refl), ((refl, refl), tt))));
}

compact_sql-words_example :
    compact_sql (codes "\n" ++ (codes "select" ++ (spread (from_table ∷ []) ++ codes " ")))
    ≡ codes "select" ++ spaced (from_table ∷ [])
unfolding scanner
compact_sql-words_example =
    compact_sql-words (codes "\n") (codes "select") (codes " ") (from_table ∷ []) (refl, tt)
      (λ p. absurd (cc p))
      (
        (refl, refl),
        ((refl, refl), ((refl, refl), ((refl, refl), ((refl, refl), ((refl, refl), tt))))),
      )
      (from_table-IsPart, tt) (refl, tt)

compact_sql-literal_example :
    compact_sql (39 ∷ codes "a  b" ++ 39 ∷ codes " ;")
    ≡ 39 ∷ codes "a  b" ++ 39 ∷ scan (quoting 0 39) (codes " ;")
unfolding scanner
compact_sql-literal_example =
    compact_sql-literal 39 (codes "a  b") (codes " ;") refl
      (
        (refl, (λ p. omega arith), (λ p. omega arith)),
        (
          (refl, (λ p. omega arith), (λ p. omega arith)),
          (
            (refl, (λ p. omega arith), (λ p. omega arith)),
            ((refl, (λ p. omega arith), (λ p. omega arith)), tt),
          ),
        ),
      )
      (λ p. omega arith)

compact_sql-literal_dashes_example :
    compact_sql (39 ∷ codes "a" ++ b'-' ∷ b'-' ∷ codes "b';") ≡ codes "'a"
unfolding scanner
compact_sql-literal_dashes_example =
    compact_sql-literal_dashes 39 (codes "a") (codes "b';") refl
      ((refl, (λ p. omega arith), (λ p. omega arith)), tt)
      ((λ p. omega arith), ((λ p. omega arith), ((λ p. omega arith), tt)))

compact_sql-block_comment_example :
    compact_sql (b'/' ∷ b'*' ∷ codes " a " ++ b'*' ∷ (codes " b " ++ b'/' ∷ codes " 1"))
    ≡ scan (idle 0 true) (codes " 1")
compact_sql-block_comment_example =
    compact_sql-block_comment (codes " a ") (codes " b ") (codes " 1")
      ((λ p. omega arith), ((λ p. omega arith), ((λ p. omega arith), tt)))
      ((λ p. omega arith), ((λ p. omega arith), ((λ p. omega arith), tt)))

length-compact_sql_example :
    length (compact_sql (codes "select  1 -- one")) ≤ length (codes "select  1 -- one")
length-compact_sql_example = length-compact_sql (codes "select  1 -- one")
