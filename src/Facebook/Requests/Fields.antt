-- ===== src/Facebook/Requests/Fields.antt =====
-- Required fields.
use im_providers_service.Prelude.{
  String, ◌≡◌, ◌≢◌, ◌↔◌, refl, ap, Bool-cases, inl, inr, List, [], ◌∷◌, All, ◌==◌, string_eq,
  eq_iff,
}
use im_providers_service.Prelude.Failure.{ok}
use im_providers_service.Facebook.Requests.{missing_of, none_missing, require_fields}

-- Every pair has a value.
abbrev pub IsFilled : List (String × String) → Type 0
IsFilled pairs = All (λ (p : String × String). p.1 ≢ "") pairs

filled : (pairs : List (String × String)) → missing_of pairs ≡ [] → IsFilled pairs
unfolding missing_of
filled [] h = tt
filled ((name, value) ∷ pairs) h = elim (Bool-cases (value == "")) [
  | inl e ↦ absurd (cc (h, e))
  | inr e ↦ ((λ p. cc ((eq_iff value "").1 p, e)), filled pairs (cc (h, e)))
]

none_missing-filled : (pairs : List (String × String)) → IsFilled pairs → missing_of pairs ≡ []
unfolding missing_of
none_missing-filled [] h = refl
none_missing-filled ((name, value) ∷ pairs) (given, rest) = elim (Bool-cases (value == "")) [
  | inl e ↦ absurd (given ((eq_iff value "").0 e))
  | inr e ↦ rw e (none_missing-filled pairs rest)
]

-- The fields are accepted exactly if every one of them has a value.
pub require_fields-IsFilled :
    (pairs : List (String × String)) → (require_fields pairs ≡ ok tt) ↔ IsFilled pairs
unfolding require_fields
require_fields-IsFilled pairs = (
  (λ h. filled pairs (accepted (missing_of pairs) h)),
  (λ h. ap none_missing (none_missing-filled pairs h)),
)
  where
    accepted : (fields : List String) → none_missing fields ≡ ok tt → fields ≡ []
    accepted [] h = refl
    accepted (f ∷ fields) h = absurd (cc h)
