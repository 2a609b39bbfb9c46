-- ===== src/Sql/Compact/Quotes.antt =====
-- What `CompactSQL` does inside a quoted literal.
use mathlib.Core.List.{append-nil}
use im_providers_service.Prelude.{
  ℕ, ◌≡◌, ◌≢◌, refl, ap, ◌∙◌, true, false, List, [], ◌∷◌, ◌++◌, All, arith,
}
use im_providers_service.Sql.Compact.{
  Scan, start, is_punct, is_quote, is_comment, is_literal, held, last_written, injected, output,
  text_step, step, scan, compact_sql,
}

-- The scanner inside a literal.
abbrev pub quoting : ℕ → ℕ → Scan
quoting q l = record { last = l; hold = 0; space = false; quote = q; comment = 0 }

-- The scanner inside a literal, with a dash held.
abbrev dash_held : ℕ → ℕ → Scan
dash_held q l = record { last = l; hold = b'-'; space = false; quote = q; comment = 0 }

-- The scanner inside a line comment.
abbrev commented : ℕ → ℕ → Scan
commented q l = record { last = l; hold = 0; space = false; quote = q; comment = b'-' }

-- A character that neither ends a literal nor may start a comment.
abbrev pub IsBody : ℕ → Type 0
IsBody c = (is_quote c ≡ false) × (c ≢ b'-') × (c ≢ b'/')

step-open : (q : ℕ) → is_quote q ≡ true → step q start ≡ (q ∷ [], quoting q q)
unfolding step is_comment text_step is_literal output held injected last_written is_quote is_punct
step-open q h = ground arith

step-body :
    (c q l : ℕ) → is_quote q ≡ true → IsBody c → step c (quoting q l) ≡ (c ∷ [], quoting q c)
unfolding step is_comment text_step is_literal output held injected last_written is_quote
step-body c q l h k = ground arith

step-close : (q l : ℕ) → is_quote q ≡ true → l ≢ 92 → step q (quoting q l) ≡ (q ∷ [], quoting 0 q)
unfolding step is_comment text_step is_literal output held injected last_written is_quote
step-close q l h k = ground arith

abbrev pub last_in : ℕ → List ℕ → ℕ
last_in l [] = l
last_in l (c ∷ body) = last_in c body

scan-body :
    (q l : ℕ) (body t : List ℕ)
    → is_quote q ≡ true
    → All IsBody body
    → scan (quoting q l) (body ++ t) ≡ body ++ scan (quoting q (last_in l body)) t
unfolding scan
scan-body q l [] t h k = refl
scan-body q l (c ∷ body) t h (k, ks) = rw (step-body c q l h k) (rw (scan-body q c body t h ks))

-- A literal, its white space included, is copied as it stands, if it holds no quote of either kind,
-- no dash and no slash, and its last character is no backslash; the scanner goes on outside of it.
pub compact_sql-literal :
    (q : ℕ) (body t : List ℕ)
    → is_quote q ≡ true
    → All IsBody body
    → last_in q body ≢ 92
    → compact_sql (q ∷ body ++ q ∷ t) ≡ q ∷ body ++ q ∷ scan (quoting 0 q) t
unfolding compact_sql
compact_sql-literal q body t h k e =
    unfold scan in
    rw (step-open q h) (
      ap (λ u. q ∷ u)
        (scan-body q q body (q ∷ t) h k ∙ unfold scan in rw (step-close q (last_in q body) h e)))

step-dash : (q l : ℕ) → is_quote q ≡ true → step b'-' (quoting q l) ≡ ([], dash_held q l)
unfolding step is_comment
step-dash q l h = refl

step-dash_dash : (q l : ℕ) → step b'-' (dash_held q l) ≡ ([], commented q l)
unfolding step is_comment
step-dash_dash q l = refl

step-commented : (c q l : ℕ) → c ≢ 10 → step c (commented q l) ≡ ([], commented q l)
unfolding step is_comment
step-commented c q l h = ground arith

scan-commented : (q l : ℕ) (t : List ℕ) → All (λ c. c ≢ 10) t → scan (commented q l) t ≡ []
unfolding scan
scan-commented q l [] h = refl
scan-commented q l (c ∷ t) (h, hs) = rw (step-commented c q l h) (scan-commented q l t hs)

-- Two dashes inside a literal are taken for a comment: the rest of the line is lost, the end of the
-- literal with it.
pub compact_sql-literal_dashes :
    (q : ℕ) (body rest : List ℕ)
    → is_quote q ≡ true
    → All IsBody body
    → All (λ c. c ≢ 10) rest
    → compact_sql (q ∷ body ++ b'-' ∷ b'-' ∷ rest) ≡ q ∷ body
unfolding compact_sql
compact_sql-literal_dashes q body rest h k r =
    unfold scan in
    rw (step-open q h) (
      ap (λ u. q ∷ u)
        (scan-body q q body (b'-' ∷ b'-' ∷ rest) h k
          ∙ (unfold scan in
              rw (step-dash q (last_in q body) h) (
                rw (step-dash_dash q (last_in q body))
                  (rw (scan-commented q (last_in q body) rest r) (append-nil body))))))
