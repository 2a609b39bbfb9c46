-- ===== src/Whatsapp/Gate/Valid.antt =====
-- What a gate has to be to pass `Validate` of internal/whatsapp/gate/gate.model.go.
use im_providers_service.Prelude.{
  String, ◌==◌, string_eq, eq_iff, ◌≡◌, refl, subst, inl, inr, Bool-cases, Bool, true, false, not,
  ◌||◌, Option, none, some,
}
use im_providers_service.Prelude.Int.{is_nonpos}
use im_providers_service.Prelude.Text.{is_blank}
use im_providers_service.Prelude.Failure.{Result, ok, err, require, ◌and_then◌}
use im_providers_service.Whatsapp.Account.{Contact}
use im_providers_service.Whatsapp.Gate.{Gate, validate_waba, validate_contact, validate}

abbrev pub IsFilled : String → Type 0
IsFilled s = is_blank s ≡ false

pub record IsValid (gate : Gate) : Type 0 where
  pub name : IsFilled gate.name
  pub type : gate.type ≡ "whatsapp"
  pub contact : (c : Contact) × (gate.contact ≡ some c) × IsFilled c.iss × IsFilled c.sub
  pub dc : is_nonpos gate.dc ≡ false
  pub phone_number : IsFilled gate.waba.phone_number
  pub phone_number_id : IsFilled gate.waba.phone_number_id
  pub business_id : IsFilled gate.waba.business_id
  pub access_token : IsFilled gate.waba.access_token

both_ok : (r rest : Result (Unit {0})) → (r and_then rest) ≡ ok tt → (r ≡ ok tt) × (rest ≡ ok tt)
both_ok (ok _) rest h = (refl, h)
both_ok (err e) rest h = absurd (cc h)

require-true : (b : Bool) (message : String) → require b message ≡ ok tt → b ≡ true
require-true true message h = refl
require-true false message h = absurd (cc h)

require-false : (b : Bool) (message : String) → require (not b) message ≡ ok tt → b ≡ false
require-false true message h = absurd (cc h)
require-false false message h = refl

neither : (a b : Bool) → (a || b) ≡ false → b ≡ false
neither true b h = absurd (cc h)
neither false b h = h

contact-valid :
    (contact : Option Contact)
    → validate_contact contact ≡ ok tt
    → (c : Contact) × (contact ≡ some c) × IsFilled c.iss × IsFilled c.sub
contact-valid none h = absurd (cc h)
contact-valid (some c) h =
    let (iss, sub) = both_ok _ _ h in (c, refl, require-false _ _ iss, require-false _ _ sub)

pub validate-IsValid : (gate : Gate) → validate gate ≡ ok tt → IsValid gate
unfolding validate validate_waba
validate-IsValid gate h =
    let (name, h1) = both_ok _ _ h in
    let (type, h2) = both_ok _ _ h1 in
    let (contact, h3) = both_ok _ _ h2 in
    let (dc, h4) = both_ok _ _ h3 in
    let (number, h5) = both_ok _ _ h4 in
    let (number_id, h6) = both_ok _ _ h5 in
    let (business, token) = both_ok _ _ h6 in
    record {
      name = require-false _ _ name;
      type = (eq_iff gate.type "whatsapp").0 (require-true _ _ type);
      contact = contact-valid gate.contact contact;
      dc = require-false _ _ dc;
      phone_number = neither _ _ (require-false _ _ number);
      phone_number_id = require-false _ _ number_id;
      business_id = require-false _ _ business;
      access_token = require-false _ _ token;
    }

not_empty : (s : String) → IsFilled s → (s == "") ≡ false
unfolding is_blank
not_empty s filled = elim (Bool-cases (s == "")) [
  | inl empty ↦ absurd (blank_filled (subst IsFilled ((eq_iff s "").0 empty) filled))
  | inr e ↦ e
]
  where
    blank_filled : true ≡ false → ⊥
    blank_filled q = cc q

pub IsValid-validate : (gate : Gate) → IsValid gate → validate gate ≡ ok tt
unfolding validate validate_waba
IsValid-validate gate v =
    let typed : (gate.type == "whatsapp") ≡ true = (eq_iff gate.type "whatsapp").1 v.type in
    let (c, bound, iss, sub) = v.contact in
    rw
      (
        v.name,
        typed,
        bound,
        iss,
        sub,
        v.dc,
        not_empty gate.waba.phone_number_id v.phone_number_id,
        v.phone_number,
        v.phone_number_id,
        v.business_id,
        v.access_token,
      )
      refl
