-- ===== src/Prelude/Dict.antt =====
-- Go maps keyed by texts, as lists of assignments with the latest one first. No function of the model
-- ranges over one.
use im_providers_service.Prelude.{
  String, ◌≡◌, refl, Option, none, some, List, [], ◌∷◌, ◌==◌, string_eq, if◌then◌else◌,
}

module _ {ℓ} {V : Type ℓ} where
  unfoldable pub lookup : String → List (String × V) → Option V
  lookup wanted [] = none
  lookup wanted (latest ∷ earlier) =
      let found = lookup wanted earlier in if latest.0 == wanted then some latest.1 else found

  -- `m[k] = v`
  unfoldable pub insert : String → V → List (String × V) → List (String × V)
  insert key value earlier = (key, value) ∷ earlier

  pub lookup-insert :
      (wanted key : String) (value : V) (earlier : List (String × V))
      → lookup wanted (insert key value earlier)
        ≡ (if key == wanted then some value else lookup wanted earlier)
  unfolding lookup insert
  lookup-insert wanted key value earlier = refl
