-- ===== src/Prelude/Text/Trim.antt =====
-- White space at the ends of a text does not survive `strings.TrimSpace`.
use mathlib.Core.List.{reverse, reverse-append}
use im_providers_service.Prelude.{
  ℕ, ◌≡◌, refl, ◌∙◌, true, List, [], ◌∷◌, ◌++◌, All, All-append, arith, inl, inr, ◌⊎◌,
}
use im_providers_service.Prelude.Text.{is_space, trim_left, trim_space}

abbrev pub IsBlank : List ℕ → Type 0
IsBlank = All (λ c. is_space c ≡ true)

trim_left-blank : (pad s : List ℕ) → IsBlank pad → trim_left (pad ++ s) ≡ trim_left s
unfolding trim_left
trim_left-blank [] s h = refl
trim_left-blank (c ∷ pad) s (h, hs) = rw h (trim_left-blank pad s hs)

-- A text is all white space, or its white space is cut off the same before any ending.
trim_left-append :
    (s t : List ℕ)
    → ((trim_left s ≡ []) × (trim_left (s ++ t) ≡ trim_left t))
      ⊎ (trim_left (s ++ t) ≡ trim_left s ++ t)
unfolding trim_left
trim_left-append [] t = inl (refl, refl)
trim_left-append (c ∷ s) t = ground (arith, trim_left-append s t)

reverse-IsBlank : (pad : List ℕ) → IsBlank pad → IsBlank (reverse pad)
reverse-IsBlank [] h = tt
reverse-IsBlank (c ∷ pad) (h, hs) =
    rw (reverse-append (c ∷ []) pad)
      (All-append _ (reverse pad) (c ∷ []) (reverse-IsBlank pad hs) (h, tt))

trim_left-all : (pad : List ℕ) → IsBlank pad → trim_left pad ≡ []
unfolding trim_left
trim_left-all [] h = refl
trim_left-all (c ∷ pad) (h, hs) = rw h (trim_left-all pad hs)

trim_space-blank_end : (s pad : List ℕ) → IsBlank pad → trim_space (s ++ pad) ≡ trim_space s
unfolding trim_space
trim_space-blank_end s pad h = elim (trim_left-append s pad) [
  | inl (e, e') ↦ rw (e', e, trim_left-all pad h)
  | inr e ↦
      rw (e, reverse-append)
        (rw (trim_left-blank (reverse pad) (reverse (trim_left s)) (reverse-IsBlank pad h)))
]

trim_space-blank_start : (pad s : List ℕ) → IsBlank pad → trim_space (pad ++ s) ≡ trim_space s
unfolding trim_space
trim_space-blank_start pad s h = rw (trim_left-blank pad s h)

pub trim_space-blank_ends :
    (pad s pad' : List ℕ)
    → IsBlank pad
    → IsBlank pad'
    → trim_space (pad ++ (s ++ pad')) ≡ trim_space s
trim_space-blank_ends pad s pad' h h' =
    trim_space-blank_start pad (s ++ pad') h ∙ trim_space-blank_end s pad' h'
