-- ===== src/Facebook/Contacts.antt =====
-- internal/facebook/user.go and the profile step of `processMessage` (webhook.go): the sender's contact.
-- The texts of errors are without the ids in them. Logging is left out.
use im_providers_service.Prelude.{String, Bool, true, false, ◌==◌, string_eq, if◌then◌else◌}
use im_providers_service.Prelude.Io.{Io, ◌>>=◌}
use im_providers_service.Prelude.Failure.{
  Failure, Result, ok, err, wrap, wrapped, status, already_exists,
}
use im_providers_service.Facebook.Model.{UserProfile, ExternalUser, FacebookGate}
use im_providers_service.Facebook.Services.{
  Contact, CreateContactRequest, Services, provider_type, gateway_identity, logged,
}

-- `isAlreadyExists`
unfoldable pub is_already_exists : Failure → Bool
is_already_exists (status already_exists m) = true
is_already_exists (wrapped m cause) = is_already_exists cause
is_already_exists _ = false

-- `toExternalUser`
abbrev pub to_external_user : String → UserProfile → ExternalUser
to_external_user psid profile = record {
  id = psid;
  first_name = profile.first_name;
  last_name = profile.last_name;
}

-- The request of `ensureContact`.
abbrev pub contact_request : ExternalUser → CreateContactRequest
contact_request user = record {
  iss_id = provider_type;
  type = provider_type;
  name = user.first_name;
  username = user.last_name;
  subject = user.id;
}

-- `ensureContact`, from the gateway's answer.
abbrev pub settled : ExternalUser → Result Contact → Result Contact
settled user (ok contact) = ok contact
settled user (err e) =
    if is_already_exists e
    then ok (record { sub = user.id; iss = provider_type })
    else err (wrapped "create contact" e)

abbrev pub is_hit : Result Bool → Bool
is_hit (ok known) = known
is_hit (err e) = false

module _ {W : Type 0} (api : Services W) where
  unfoldable pub ensure_contact : String → ExternalUser → Io W Contact
  ensure_contact identity user w =
      let (r, w') = api.create_contact identity (contact_request user) w in (settled user r, w')

  -- `ensureVia`: its errors are logged only.
  unfoldable pub ensure_via : String → String → String → String → Io W (Unit {0})
  ensure_via identity sub iss gate_id w = logged (api.create_via identity gate_id iss sub w)

  -- The end of `syncContact`, with the contact at hand.
  unfoldable pub remember : FacebookGate → String → UserProfile → Contact → Io W Contact
  remember gate psid profile contact w =
      let (_, w1) = ensure_via (gateway_identity gate) psid contact.iss gate.id w in
      let (_, w2) = api.mark_known (to_external_user psid profile) w1 in
      if profile.locale == ""
      then (ok contact, w2)
      else let (_, w3) = api.set_locale gate.id psid profile.locale w2 in (ok contact, w3)

  unfoldable pub sync_contact : FacebookGate → String → UserProfile → Io W Contact
  sync_contact gate psid profile w =
      let (known, w') = api.is_known (to_external_user psid profile) w in
      if is_hit known
      then (ok (record { sub = psid; iss = "" }), w')
      else (ensure_contact (gateway_identity gate) (to_external_user psid profile)
            >>= remember gate psid profile)
          w'

  abbrev pub synced_profile : FacebookGate → String → Result UserProfile × W → Result Contact × W
  synced_profile gate psid (err e, w) = (err (wrapped "fetch profile" e), w)
  synced_profile gate psid (ok profile, w) =
      let (contact, w') = sync_contact gate psid profile w in (wrap "sync contact" contact, w')

  -- The profile is fetched and the contact is synced.
  unfoldable pub fetch_and_sync : FacebookGate → String → Io W Contact
  fetch_and_sync gate psid w =
      synced_profile gate psid (api.get_user_profile psid gate.page_token w)
