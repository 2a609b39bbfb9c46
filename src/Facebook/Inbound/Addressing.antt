-- ===== src/Facebook/Inbound/Addressing.antt =====
-- What the pipeline of one messaging event calls, and with whose names and credentials.
use im_providers_service.Prelude.{String, ◌≡◌, refl, List, ◌==◌, string_eq}
use im_providers_service.Prelude.Int.{ℤ}
use im_providers_service.Prelude.Io.{follow}
use im_providers_service.Prelude.Keeps.{follow-keeps, if-keeps}
use im_providers_service.Prelude.Failure.{Result, ok, err}
use im_providers_service.Core.Message.{Peer, SendTextRequest, SendImageRequest, SendDocumentRequest}
use im_providers_service.Facebook.Model.{UserProfile, ExternalUser, FacebookGate}
use im_providers_service.Facebook.Services.{
  Contact, CreateContactRequest, UploadRequest, Services, provider_type, gateway_identity, peers_of,
}
use im_providers_service.Facebook.Contacts.{
  to_external_user, ensure_contact, ensure_via, remember, sync_contact, fetch_and_sync,
  synced_profile, is_hit,
}

-- A request in the gate's domain, from the sender to the gate's own peer.
abbrev pub IsAddressed : FacebookGate → String → ℤ → Peer → Peer → Type 0
IsAddressed gate psid domain from to =
    (domain ≡ gate.domain_id) × (from ≡ (peers_of gate psid).from) × (to ≡ (peers_of gate psid).to)

module _ {W : Type 0} (api : Services W) (P : W → Type 0) (gate : FacebookGate)
    (psid : String) where
  -- The calls that do not deliver keep `P`, if they are about this sender, with the gate's token,
  -- domain and identity.
  pub record SyncKeeps : Type 0 where
    pub get_user_profile : (w : W) → P w → P (api.get_user_profile psid gate.page_token w).1
    pub is_known : (u : ExternalUser) (w : W) → u.id ≡ psid → P w → P (api.is_known u w).1
    pub mark_known : (u : ExternalUser) (w : W) → u.id ≡ psid → P w → P (api.mark_known u w).1
    pub set_locale : (l : String) (w : W) → P w → P (api.set_locale gate.id psid l w).1
    pub create_contact :
        (r : CreateContactRequest) (w : W)
        → r.subject ≡ psid
        → r.iss_id ≡ provider_type
        → P w
        → P (api.create_contact (gateway_identity gate) r w).1
    pub create_via :
        (iss : String) (w : W)
        → P w
        → P (api.create_via (gateway_identity gate) gate.id iss psid w).1

  -- And so do the calls that deliver.
  pub record DeliveryKeeps : Type 0 where
    pub send_text :
        (r : SendTextRequest) (w : W)
        → IsAddressed gate psid r.domain_id r.from r.to
        → P w
        → P (api.send_text r w).1
    pub send_image :
        (r : SendImageRequest) (w : W)
        → IsAddressed gate psid r.domain_id r.from r.to
        → P w
        → P (api.send_image r w).1
    pub send_document :
        (r : SendDocumentRequest) (w : W)
        → IsAddressed gate psid r.domain_id r.from r.to
        → P w
        → P (api.send_document r w).1
    pub download : (url : String) (w : W) → P w → P (api.download url gate.page_token w).1
    pub upload_file :
        (r : UploadRequest) (w : W) (body : List _)
        → r.domain_id ≡ gate.domain_id
        → P w
        → P (api.upload_file r body w).1

  module _ (keeps : SyncKeeps) where
    remember-keeps :
        (profile : UserProfile) (c : Contact) (w : W)
        → P w
        → P (remember api gate psid profile c w).1
    unfolding remember ensure_via
    remember-keeps profile c w p =
        let p1 = keeps.create_via c.iss w p in
        let p2 = keeps.mark_known (to_external_user psid profile) _ refl p1 in
        if-keeps P (profile.locale == "") (ok c, _) (ok c, _) p2
          (keeps.set_locale profile.locale _ p2)

    ensure_contact-keeps :
        (profile : UserProfile) (w : W)
        → P w
        → P (ensure_contact api (gateway_identity gate) (to_external_user psid profile) w).1
    unfolding ensure_contact
    ensure_contact-keeps profile w p = keeps.create_contact _ w refl refl p

    sync_contact-keeps :
        (profile : UserProfile) (w : W) → P w → P (sync_contact api gate psid profile w).1
    unfolding sync_contact
    sync_contact-keeps profile w p =
        let user = to_external_user psid profile in
        let known = api.is_known user w in
        let p1 = keeps.is_known user w refl p in
        let rest = ensure_contact api (gateway_identity gate) user known.1 in
        if-keeps P (is_hit known.0) (ok (record { sub = psid; iss = "" }), known.1)
          (follow rest (remember api gate psid profile)) p1
          (follow-keeps P rest (remember api gate psid profile)
            (ensure_contact-keeps profile known.1 p1) (λ c _ w' p'. remember-keeps profile c w' p'))

    pub fetch_and_sync-keeps : (w : W) → P w → P (fetch_and_sync api gate psid w).1
    unfolding fetch_and_sync
    fetch_and_sync-keeps w p = fetched _ (keeps.get_user_profile w p)
      where
        fetched : (r : Result UserProfile × W) → P r.1 → P (synced_profile api gate psid r).1
        fetched (ok profile, w') p' = sync_contact-keeps profile w' p'
        fetched (err e, w') p' = p'
