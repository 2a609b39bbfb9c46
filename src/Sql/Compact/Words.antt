-- ===== src/Sql/Compact/Words.antt =====
-- What `CompactSQL` does to words and the white space between them.
use mathlib.Core.List.{append_assoc, append-nil}
use im_providers_service.Prelude.{
  ℕ, ◌≡◌, ◌≢◌, refl, ap, ◌∙◌, Bool, true, false, not, ◌&&◌, ◌||◌, List, [], ◌∷◌, ◌++◌, All, arith,
  if◌then◌else◌,
}
use im_providers_service.Sql.Compact.{
  Scan, is_space, is_punct, is_quote, is_comment, is_literal, held, last_written, injected, output,
  text_step, step, scan, compact_sql,
}

-- The scanner outside of comments and literals, with nothing held.
abbrev pub idle : ℕ → Bool → Scan
idle l sp = record { last = l; hold = 0; space = sp; quote = 0; comment = 0 }

-- A character of a word: no white space, no punctuation (quotes and operators are).
abbrev pub IsPlain : ℕ → Type 0
IsPlain c = (is_space c ≡ false) × (is_punct c ≡ false)

abbrev pub IsGap : ℕ → Type 0
IsGap c = is_space c ≡ true

abbrev pub gap_before : ℕ → Bool → List ℕ
gap_before l sp = if sp && not (is_punct l) then 32 ∷ [] else []

step-plain :
    (c l : ℕ) (sp : Bool)
    → IsPlain c
    → step c (idle l sp) ≡ (gap_before l sp ++ c ∷ [], idle c false)
unfolding step is_comment text_step is_literal output held injected last_written is_quote is_punct
step-plain c l sp h = ground arith

step-gap : (c l : ℕ) (sp : Bool) → IsGap c → step c (idle l sp) ≡ ([], idle l true)
unfolding step is_comment text_step is_literal is_quote is_space
step-gap c l sp h = ground arith

abbrev is_empty : List ℕ → Bool
is_empty [] = true
is_empty (_ ∷ _) = false

last_of : ℕ → List ℕ → ℕ
last_of c [] = c
last_of c (d ∷ w) = last_of d w

last_of-IsPlain : (c : ℕ) (w : List ℕ) → All IsPlain (c ∷ w) → is_punct (last_of c w) ≡ false
unfolding last_of
last_of-IsPlain c [] (h, _) = h.1
last_of-IsPlain c (d ∷ w) (_, h) = last_of-IsPlain d w h

scan-word :
    (c l : ℕ) (sp : Bool) (w t : List ℕ)
    → All IsPlain (c ∷ w)
    → scan (idle l sp) (c ∷ w ++ t)
      ≡ gap_before l sp ++ (c ∷ w ++ scan (idle (last_of c w) false) t)
unfolding scan last_of
scan-word c l sp [] t (h, _) = rw (step-plain c l sp h) (append_assoc (gap_before l sp) _ _)
scan-word c l sp (d ∷ w) t (h, k) =
    rw (step-plain c l sp h) (rw (scan-word d c false w t k) (append_assoc (gap_before l sp) _ _))

scan-gap :
    (l : ℕ) (sp : Bool) (g t : List ℕ)
    → All IsGap g
    → scan (idle l sp) (g ++ t) ≡ scan (idle l (sp || not (is_empty g))) t
unfolding scan
scan-gap l sp [] t h = ground arith
scan-gap l sp (c ∷ g) t (h, k) = rw (step-gap c l sp h) (ground (arith, scan-gap l true g t k))

pub record Part : Type 0 where
  pub gap : List ℕ
  pub word : List ℕ

-- A gap and a word after it, neither empty.
pub record IsPart (p : Part) : Type 0 where
  pub has_gap : p.gap ≢ []
  pub gap : All IsGap p.gap
  pub has_word : p.word ≢ []
  pub word : All IsPlain p.word

-- The parts as they stand in the statement, and with one space for each gap.
abbrev pub spread : List Part → List ℕ
spread [] = []
spread (p ∷ ps) = p.gap ++ (p.word ++ spread ps)

abbrev pub spaced : List Part → List ℕ
spaced [] = []
spaced (p ∷ ps) = 32 ∷ p.word ++ spaced ps

scan-part :
    (l : ℕ) (gap word t : List ℕ)
    → is_punct l ≡ false
    → gap ≢ []
    → All IsGap gap
    → word ≢ []
    → All IsPlain word
    → (l' : ℕ) × (is_punct l' ≡ false)
      × (scan (idle l false) (gap ++ (word ++ t)) ≡ 32 ∷ word ++ scan (idle l' false) t)
scan-part l [] word t p hg g hw w = absurd (hg refl)
scan-part l (b ∷ bs) [] t p hg g hw w = absurd (hw refl)
scan-part l (b ∷ bs) (c ∷ cs) t p hg g hw w = (
  last_of c cs,
  last_of-IsPlain c cs w,
  scan-gap l false (b ∷ bs) (c ∷ cs ++ t) g ∙ rw (scan-word c l true cs t w) (rw p),
)

scan-trail : (l : ℕ) (trail : List ℕ) → All IsGap trail → scan (idle l false) trail ≡ []
scan-trail l trail k =
    rw (← append-nil trail) (rw (scan-gap l false trail [] k) (unfold scan in refl))

scan-spread :
    (l : ℕ) (ps : List Part) (trail : List ℕ)
    → is_punct l ≡ false
    → All IsPart ps
    → All IsGap trail
    → scan (idle l false) (spread ps ++ trail) ≡ spaced ps
scan-spread l [] trail p h k = scan-trail l trail k
scan-spread l (q ∷ ps) trail p (h, hs) k =
    let (l', p', e) =
      scan-part l q.gap q.word (spread ps ++ trail) p h.has_gap h.gap h.has_word h.word in
    rw (append_assoc q.gap _ _, append_assoc q.word _ _)
      (e ∙ ap (λ t. 32 ∷ q.word ++ t) (scan-spread l' ps trail p' hs k))

lead_dropped : (sp : Bool) (t : List ℕ) → gap_before 0 sp ++ t ≡ t
unfolding is_punct
lead_dropped sp t = ground arith

-- A statement of words parted by white space, with white space before and after, compacts to the
-- words parted by single spaces. Words hold no quotes and no punctuation.
pub compact_sql-words :
    (lead word trail : List ℕ) (ps : List Part)
    → All IsGap lead
    → word ≢ []
    → All IsPlain word
    → All IsPart ps
    → All IsGap trail
    → compact_sql (lead ++ (word ++ (spread ps ++ trail))) ≡ word ++ spaced ps
unfolding compact_sql
compact_sql-words lead [] trail ps g hw w h k = absurd (hw refl)
compact_sql-words lead (c ∷ cs) trail ps g hw w h k =
    scan-gap 0 false lead _ g
    ∙ (scan-word c 0 (not (is_empty lead)) cs (spread ps ++ trail) w
        ∙ rw (scan-spread (last_of c cs) ps trail (last_of-IsPlain c cs w) h k)
            (lead_dropped (not (is_empty lead)) (c ∷ cs ++ spaced ps)))
