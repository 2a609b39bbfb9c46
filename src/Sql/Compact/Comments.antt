-- ===== src/Sql/Compact/Comments.antt =====
-- What `CompactSQL` does with comments.
use im_providers_service.Prelude.{
  ℕ, ◌≡◌, ◌≢◌, refl, ◌∙◌, true, false, List, [], ◌∷◌, ◌++◌, All, arith,
}
use im_providers_service.Sql.Compact.{Scan, is_comment, step, scan, compact_sql}
use im_providers_service.Sql.Compact.Words.{idle}

-- The scanner inside a comment of the kind that `kind` opens, `held` being a star or nothing.
abbrev inside : ℕ → ℕ → Scan
inside kind held = record { last = 0; hold = held; space = false; quote = 0; comment = kind }

step-no_star : (c : ℕ) → c ≢ b'*' → step c (inside b'*' 0) ≡ ([], inside b'*' 0)
unfolding step is_comment
step-no_star c h = ground arith

step-no_slash : (c : ℕ) → c ≢ b'/' → step c (inside b'*' b'*') ≡ ([], inside b'*' b'*')
unfolding step is_comment
step-no_slash c h = ground arith

scan-no_star :
    (a t : List ℕ) → All (λ c. c ≢ b'*') a → scan (inside b'*' 0) (a ++ t) ≡ scan (inside b'*' 0) t
unfolding scan
scan-no_star [] t h = refl
scan-no_star (c ∷ a) t (h, hs) = rw (step-no_star c h) (scan-no_star a t hs)

scan-no_slash :
    (b t : List ℕ)
    → All (λ c. c ≢ b'/') b
    → scan (inside b'*' b'*') (b ++ t) ≡ scan (inside b'*' b'*') t
unfolding scan
scan-no_slash [] t h = refl
scan-no_slash (c ∷ b) t (h, hs) = rw (step-no_slash c h) (scan-no_slash b t hs)

scan-opened : (t : List ℕ) → compact_sql (b'/' ∷ b'*' ∷ t) ≡ scan (inside b'*' 0) t
unfolding compact_sql scan step is_comment
scan-opened t = refl

scan-star : (t : List ℕ) → scan (inside b'*' 0) (b'*' ∷ t) ≡ scan (inside b'*' b'*') t
unfolding scan step is_comment
scan-star t = refl

scan-slash : (t : List ℕ) → scan (inside b'*' b'*') (b'/' ∷ t) ≡ scan (idle 0 true) t
unfolding scan step is_comment
scan-slash t = refl

-- A block comment ends at the first slash that comes anywhere after the first star, whether or not
-- it stands next to a star: with `b` empty this is the end of an ordinary comment, and with `b` not
-- empty the rest `t` of the comment is read as text of the statement.
pub compact_sql-block_comment :
    (a b t : List ℕ)
    → All (λ c. c ≢ b'*') a
    → All (λ c. c ≢ b'/') b
    → compact_sql (b'/' ∷ b'*' ∷ a ++ b'*' ∷ (b ++ b'/' ∷ t)) ≡ scan (idle 0 true) t
compact_sql-block_comment a b t h k =
    scan-opened _ ∙ (scan-no_star a _ h ∙ (scan-star _ ∙ (scan-no_slash b _ k ∙ scan-slash t)))
