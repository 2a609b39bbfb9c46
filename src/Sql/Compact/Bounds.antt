-- ===== src/Sql/Compact/Bounds.antt =====
-- The size of what `CompactSQL` writes.
use im_providers_service.Prelude.{
  ℕ, ◌+◌, ◌≤◌, ◌≡◌, false, List, [], ◌∷◌, ◌++◌, length, length-append, arith, ltb, inl, inr,
  Bool-cases, if◌then◌else◌,
}
use im_providers_service.Sql.Compact.{
  Scan, start, is_comment, is_literal, held, injected, output, text_step, step, scan, compact_sql,
}

-- What the scanner owes: a held character, and a space.
abbrev owed : Scan → ℕ
owed s = (if ltb 0 s.hold then 1 else 0) + (if s.space then 1 else 0)

owed-is_comment : (c : ℕ) (s : Scan) → owed (is_comment c s).1 ≤ owed s + 1
unfolding is_comment
owed-is_comment c s = ground arith

owed-is_literal : (c : ℕ) (s : Scan) → owed (is_literal c s).1 ≡ owed s
unfolding is_literal
owed-is_literal c s = ground arith

length-held : (s : Scan) → length (held s) ≡ (if ltb 0 s.hold then 1 else 0)
unfolding held
length-held s = ground arith

length-injected : (c : ℕ) (s : Scan) → length (injected c s) ≤ (if s.space then 1 else 0)
unfolding injected
length-injected c s = ground arith

length-output : (c : ℕ) (s : Scan) → length (output c s).0 + owed (output c s).1 ≤ owed s + 1
unfolding output
length-output c s = omega (
  arith,
  length-append (held s) (injected c s ++ c ∷ []),
  length-append (injected c s) (c ∷ []),
  length-held s,
  length-injected c s,
)

-- A character that is not taken for a comment changes nothing.
is_comment-false : (c : ℕ) (s : Scan) → (is_comment c s).0 ≡ false → (is_comment c s).1 ≡ s
unfolding is_comment
is_comment-false c s h = ground arith

length-text_step :
    (c : ℕ) (s : Scan) → length (text_step c s).0 + owed (text_step c s).1 ≤ owed s + 1
unfolding text_step
length-text_step c s = ground (arith, owed-is_literal c s, length-output c (is_literal c s).1)

length-step : (c : ℕ) (s : Scan) → length (step c s).0 + owed (step c s).1 ≤ owed s + 1
unfolding step
length-step c s = elim (Bool-cases (is_comment c s).0) [
  | inl e ↦ rw e (omega (arith, owed-is_comment c s))
  | inr e ↦ rw e (rw (is_comment-false c s e) (length-text_step c s))
]

length-scan : (s : Scan) (text : List ℕ) → length (scan s text) ≤ owed s + length text
unfolding scan
length-scan s [] = omega arith
length-scan s (c ∷ text) = omega (
  arith,
  length-append (step c s).0 (scan (step c s).1 text),
  length-step c s,
  length-scan (step c s).1 text,
)

-- The compacted statement is never longer than the statement.
pub length-compact_sql : (text : List ℕ) → length (compact_sql text) ≤ length text
unfolding compact_sql
length-compact_sql text = omega (arith, length-scan start text)
