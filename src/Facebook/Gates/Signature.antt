-- ===== src/Facebook/Gates/Signature.antt =====
-- What the webhook's signature check accepts.
use im_providers_service.Prelude.{
  String, ℕ, ◌↔◌, ◌≡◌, refl, sym, ap, ◌∙◌, true, Bool-cases, inl, inr, Option, none, some, List, [],
  ◌∷◌, ◌++◌, ◌==◌, nat_eq, string_eq, arith, eq_iff,
}
use im_providers_service.Prelude.Text.{codes, text_beq}
use im_providers_service.Prelude.Failure.{Result, ok, err}
use im_providers_service.Facebook.Model.{MetaApp}
use im_providers_service.Facebook.Gates.{
  strip_prefix, check_mac, check_format, webhook_uri, validate_signature,
}

text_beq-eq : (s t : List ℕ) → text_beq s t ≡ true → s ≡ t
text_beq-eq [] [] h = refl
text_beq-eq [] (d ∷ t) h = absurd (cc h)
text_beq-eq (c ∷ s) [] h = absurd (cc h)
text_beq-eq (c ∷ s) (d ∷ t) h = grind (arith, text_beq-eq s t)

text_beq_refl : (s : List ℕ) → text_beq s s ≡ true
text_beq_refl [] = refl
text_beq_refl (c ∷ s) = grind (arith, text_beq_refl s)

strip_prefix-append : (p s : List ℕ) → strip_prefix p (p ++ s) ≡ some s
unfolding strip_prefix
strip_prefix-append [] s = refl
strip_prefix-append (c ∷ p) s = grind (arith, strip_prefix-append p s)

strip_prefix-some : (p s t : List ℕ) → strip_prefix p s ≡ some t → s ≡ p ++ t
unfolding strip_prefix
strip_prefix-some [] s t h = grind arith
strip_prefix-some (c ∷ p) [] t h = absurd (cc h)
strip_prefix-some (c ∷ p) (d ∷ s) t h = grind (arith, strip_prefix-some p s t)

module _ (select_app : String → Result MetaApp) (mac : String → List ℕ → List ℕ) (uri : String)
    (body : List ℕ) where
  -- The header that the app of the address would send with the body.
  abbrev pub IsSigned : String → Type 0
  IsSigned header =
      (app : MetaApp) × (select_app (webhook_uri uri) ≡ ok app)
      × (codes header ≡ codes "sha256=" ++ mac app.app_secret body)

  check_mac-ok :
      (header : String) (given : List ℕ) (r : Result MetaApp)
      → select_app (webhook_uri uri) ≡ r
      → codes header ≡ codes "sha256=" ++ given
      → check_mac select_app mac body given r ≡ ok tt
      → IsSigned header
  check_mac-ok header given (err e) q c h = absurd (cc h)
  check_mac-ok header given (ok app) q c h =
      elim (Bool-cases (text_beq given (mac app.app_secret body))) [
        | inl e ↦ (app, q, c ∙ ap (λ t. codes "sha256=" ++ t) (text_beq-eq _ _ e))
        | inr e ↦ absurd (cc (h, e))
      ]

  check_format-ok :
      (header : String) (o : Option (List ℕ))
      → strip_prefix (codes "sha256=") (codes header) ≡ o
      → check_format select_app mac uri body o ≡ ok tt
      → IsSigned header
  check_format-ok header none q h = absurd (cc h)
  check_format-ok header (some given) q h =
      check_mac-ok header given (select_app (webhook_uri uri)) refl
        (strip_prefix-some (codes "sha256=") (codes header) given q) h

  accepted :
      (header : String)
      → validate_signature select_app mac uri header body ≡ ok tt
      → IsSigned header
  unfolding validate_signature
  accepted header h = elim (Bool-cases (header == "")) [
    | inl e ↦ absurd (cc (h, e))
    | inr e ↦
        check_format-ok header (strip_prefix (codes "sha256=") (codes header)) refl (cc (h, e))
  ]

  signed :
      (header : String)
      → IsSigned header
      → validate_signature select_app mac uri header body ≡ ok tt
  unfolding validate_signature
  signed header (app, q, c) = elim (Bool-cases (header == "")) [
    | inl e ↦ absurd (cc (sym (ap codes ((eq_iff header "").0 e)) ∙ c))
    | inr e ↦ rw (
      e,
      c,
      strip_prefix-append (codes "sha256=") (mac app.app_secret body),
      q,
      text_beq_refl (mac app.app_secret body),
    )
  ]

-- The check accepts a body exactly if its header is "sha256=" and the MAC of that body, under the
-- secret of the app that serves the webhook's address; without such an app it accepts nothing.
pub validate_signature_iff :
    (select_app : String → Result MetaApp) (mac : String → List ℕ → List ℕ) (uri header : String)
    (body : List ℕ)
    → (validate_signature select_app mac uri header body ≡ ok tt)
      ↔ IsSigned select_app mac uri body header
validate_signature_iff select_app mac uri header body =
    (accepted select_app mac uri body header, signed select_app mac uri body header)
