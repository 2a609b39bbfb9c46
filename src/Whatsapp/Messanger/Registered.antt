-- ===== src/Whatsapp/Messanger/Registered.antt =====
-- What it takes that the sender of a message is registered at the gateway, for
-- internal/whatsapp/webhook/webhook.core.messanger.go.
use Prim.Native.String
use im_providers_service.Prelude.{
  String, ◌≡◌, refl, ap, subst, ◌∙◌, true, false, Bool-cases, [], ◌∷◌, inl, inr, ◌==◌, string_eq,
}
use im_providers_service.Prelude.Int.{ℤ, is_nonpos, to_int32}
use im_providers_service.Prelude.Text.{decimal_ℤ}
use im_providers_service.Prelude.Failure.{
  Failure, Result, ok, err, Code, already_exists, code_of, is_already_exists,
}
use im_providers_service.Core.Message.{Peer}
use im_providers_service.Whatsapp.Messanger.{
  Core, Headers, out_call_metadata, contact_request, created, via_created, answered,
}

-- An error of the gateway that says that what it is asked to make is there.
abbrev Exists : Failure → Type 0
Exists e = code_of e ≡ already_exists

-- The gateway has made what it was asked for, or says that it is there.
abbrev pub IsThere : Result (Unit {0}) → Type 0
IsThere (ok _) = Unit
IsThere (err e) = Exists e

-- A domain and a subject that metadata can be made of, and the metadata.
abbrev pub IsFit : ℤ → String → Type 0
IsFit dc sub = (is_nonpos dc ≡ false) × ((sub == "") ≡ false)

abbrev pub headers_of : ℤ → String → Headers
headers_of dc sub =
    ("x-webitel-type", "provider")
    ∷ ("x-webitel-provider", String.◌++◌ (decimal_ℤ dc) (String.◌++◌ "." sub))
    ∷ []

pub err_not_ok : {A : Type 0} {x : A} {e : Failure} → err e ≡ ok x → ⊥
err_not_ok q = cc q

fit :
    (dc : ℤ) (sub : String) (headers : Headers)
    → out_call_metadata dc sub ≡ ok headers
    → IsFit dc sub × (headers ≡ headers_of dc sub)
unfolding out_call_metadata
fit dc sub headers h = elim (Bool-cases (is_nonpos dc)) [
  | inl bad ↦ absurd (err_not_ok (rw bad at h))
  | inr good ↦ elim (Bool-cases (sub == "")) [
    | inl empty ↦ absurd (err_not_ok (rw (good, empty) at h))
    | inr named ↦ ((good, named), same (rw (good, named) at h))
  ]
]
  where
    same : {x y : Headers} → ok x ≡ ok y → y ≡ x
    same q = cc q

fit-headers :
    (dc : ℤ) (sub : String) → IsFit dc sub → out_call_metadata dc sub ≡ ok (headers_of dc sub)
unfolding out_call_metadata
fit-headers dc sub (good, named) = rw (good, named) refl

exists_code : (c : Code) → is_already_exists c ≡ true → c ≡ already_exists
exists_code already_exists h = refl
exists_code _ h = absurd (cc h)

created-IsThere : (r : Result (Unit {0})) → created r ≡ ok tt → IsThere r
created-IsThere (ok _) h = tt
created-IsThere (err e) h = elim (Bool-cases (is_already_exists (code_of e))) [
  | inl there ↦ exists_code (code_of e) there
  | inr other ↦ absurd (err_not_ok (rw other at h))
]

via_created-IsThere : (r : Result (Unit {0})) → via_created r ≡ ok tt → IsThere r
via_created-IsThere (ok _) h = tt
via_created-IsThere (err e) h = elim (Bool-cases (is_already_exists (code_of e))) [
  | inl there ↦ exists_code (code_of e) there
  | inr other ↦ absurd (err_not_ok (rw other at h))
]

IsThere-created : (r : Result (Unit {0})) → IsThere r → created r ≡ ok tt
IsThere-created (ok _) h = refl
IsThere-created (err e) h = rw h refl

IsThere-via_created : (r : Result (Unit {0})) → IsThere r → via_created r ≡ ok tt
IsThere-via_created (ok _) h = refl
IsThere-via_created (err e) h = rw h refl

module _ {W : Type 0} (core : Core W) (from to : Peer) (dc : ℤ) where
  -- The gateway's answer to the creation of the sender's contact, in the name of the recipient, and the
  -- one to the creation of its via after that.
  abbrev pub contact_answer : W → Result (Unit {0}) × W
  contact_answer w =
      core.create (headers_of dc to.sub)
        (record {
          iss_id = from.iss;
          type = "whatsapp";
          name = from.name;
          username = from.name;
          subject = from.sub;
          domain_id = to_int32 dc;
          is_bot = false;
        })
        w

  abbrev pub via_answer : W → Result (Unit {0}) × W
  via_answer w = core.create_via (headers_of dc to.sub) from.iss from.sub to.id (contact_answer w).1

  -- The sender's contact and its via are there: the gateway, asked for them from `w`, has made them or
  -- says that they exist, and is left in `w2`. The domain is positive, and both subjects are not empty.
  pub record Registered (w w2 : W) : Type 0 where
    pub recipient_fit : IsFit dc to.sub
    pub contact_there : IsThere (contact_answer w).0
    pub via_there : IsThere (via_answer w).0
    pub left : (via_answer w).1 ≡ w2
    pub sender_fit : IsFit dc from.sub

  abbrev pub after_create : Headers → W → Result (Unit {0}) × W
  after_create headers w = answered created (core.create headers (contact_request from dc) w)

  abbrev pub after_via : Headers → W → Result (Unit {0}) × W
  after_via headers w =
      answered via_created
        (core.create_via headers from.iss from.sub to.id (after_create headers w).1)

  -- The same by what the code makes of the answers.
  pub record Prepared (w w2 : W) : Type 0 where
    pub headers : Headers
    pub recipient_known : out_call_metadata dc to.sub ≡ ok headers
    pub contact_known : (after_create headers w).0 ≡ ok tt
    pub via_known : after_via headers w ≡ (ok tt, w2)
    pub sender : Headers
    pub sender_known : out_call_metadata dc from.sub ≡ ok sender

  pub Prepared-Registered : (w w2 : W) → Prepared w w2 → Registered w w2
  Prepared-Registered w w2 p =
      let (recipient, same) = fit dc to.sub p.headers p.recipient_known in
      let asked : after_via (headers_of dc to.sub) w ≡ (ok tt, w2) =
        subst (λ h. after_via h w ≡ (ok tt, w2)) same p.via_known in
      record {
        recipient_fit = recipient;
        contact_there =
            created-IsThere (contact_answer w).0
              (subst (λ h. (after_create h w).0 ≡ ok tt) same p.contact_known);
        via_there = via_created-IsThere (via_answer w).0 (ap (λ r. r.0) asked);
        left = ap (λ r. r.1) asked;
        sender_fit = (fit dc from.sub p.sender p.sender_known).0;
      }

  pub Registered-Prepared : (w w2 : W) → Registered w w2 → Prepared w w2
  Registered-Prepared w w2 r = record {
    headers = headers_of dc to.sub;
    recipient_known = fit-headers dc to.sub r.recipient_fit;
    contact_known = IsThere-created (contact_answer w).0 r.contact_there;
    via_known =
        ap (λ answer. (answer, (via_answer w).1)) (IsThere-via_created (via_answer w).0 r.via_there)
        ∙ ap (λ left. (ok tt, left)) r.left;
    sender = headers_of dc from.sub;
    sender_known = fit-headers dc from.sub r.sender_fit;
  }
