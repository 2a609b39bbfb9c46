-- ===== src/Whatsapp/Inbound/Calls.antt =====
-- The calls that a handler of internal/whatsapp/webhook/webhook.usecase.go may make, and the send of a
-- request that keeps to them.
use im_providers_service.Prelude.{String, ◌≡◌, List, [], ◌∷◌, string_eq}
use im_providers_service.Prelude.Int.{ℤ}
use im_providers_service.Prelude.Io.{Io, follow}
use im_providers_service.Prelude.Keeps.{follow-keeps}
use im_providers_service.Prelude.Failure.{Result, ok, err}
use im_providers_service.Core.Message.{Peer, SendTextRequest, SendImageRequest, SendDocumentRequest}
use im_providers_service.Whatsapp.Client.{HttpRequest}
use im_providers_service.Whatsapp.Account.{
  WhatsappBusinessAccount, resolve, find_account, resolved, found as found_row,
}
use im_providers_service.Whatsapp.Messanger.{
  Headers, SendLocationRequest, SendContactRequest, out_call_metadata, contact_request, answered,
  created, via_created, resolve_internal_contact_identity, prepare_outgoing_send_core_request,
  send_through, lift,
}
use im_providers_service.Whatsapp.Events.{
  BaseMessageEvent, Event, text_event, document_event, image_event, location_event, contacts_event,
}
use im_providers_service.Whatsapp.Inbound.{
  UploadRequest, Services, peer_of_account, sender_of, resolve_account, as_internal,
}

abbrev pub base_of : Event → BaseMessageEvent
base_of (text_event base body) = base
base_of (document_event base info document) = base
base_of (image_event base info image) = base
base_of (location_event base place) = base
base_of (contacts_event base contacts) = base

module _ {W : Type 0} (api : Services W) (P : W → Type 0) (event : BaseMessageEvent) where
  -- From the sender of the event to the bot of a business account in its domain, where the account is
  -- the first one that the database answers for the number the event was sent to.
  abbrev pub IsAddressed : ℤ → Peer → Peer → Type 0
  IsAddressed domain from to =
      (row : WhatsappBusinessAccount) × (rows : List WhatsappBusinessAccount) × (w : W)
      × ((api.query event.phone_number.id w).0 ≡ ok (ok (row ∷ rows)))
      × (domain ≡ row.dc)
      × (from ≡ sender_of event)
      × (to ≡ peer_of_account row)

  -- The calls that do not deliver keep `P`, and so do those that deliver between these two peers.
  pub record CallsKeep : Type 0 where
    pub query : (w : W) → P w → P (api.query event.phone_number.id w).1
    pub http : (r : HttpRequest) (w : W) → P w → P (api.http.send r w).1
    pub upload_file :
        (r : UploadRequest) (body : Result String) (w : W) → P w → P (api.upload_file r body w).1
    pub create :
        (h : Headers) (dc : ℤ) (from to : Peer) (w : W)
        → IsAddressed dc from to
        → P w
        → P (api.core.create h (contact_request from dc) w).1
    pub create_via :
        (h : Headers) (dc : ℤ) (from to : Peer) (w : W)
        → IsAddressed dc from to
        → P w
        → P (api.core.create_via h from.iss from.sub to.id w).1
    pub send_text :
        (h : Headers) (r : SendTextRequest) (w : W)
        → IsAddressed r.domain_id r.from r.to
        → P w
        → P (api.core.send_text h r w).1
    pub send_image :
        (h : Headers) (r : SendImageRequest) (w : W)
        → IsAddressed r.domain_id r.from r.to
        → P w
        → P (api.core.send_image h r w).1
    pub send_document :
        (h : Headers) (r : SendDocumentRequest) (w : W)
        → IsAddressed r.domain_id r.from r.to
        → P w
        → P (api.core.send_document h r w).1
    pub send_location :
        (h : Headers) (r : SendLocationRequest) (w : W)
        → IsAddressed r.domain_id r.from r.to
        → P w
        → P (api.core.send_location h r w).1
    pub send_contact :
        (h : Headers) (r : SendContactRequest) (w : W)
        → IsAddressed r.domain_id r.from r.to
        → P w
        → P (api.core.send_contact h r w).1

  pub as_internal-keeps :
      {A : Type 0} (message : String) (r : Result A × W) → P r.1 → P (as_internal api message r).1
  as_internal-keeps message (ok a, w) p = p
  as_internal-keeps message (err e, w) p = p

  module _ (keeps : CallsKeep) where
    identity-keeps :
        (from to : Peer) (dc : ℤ) (w : W)
        → IsAddressed dc from to
        → P w
        → P (resolve_internal_contact_identity api.core to from dc w).1
    unfolding resolve_internal_contact_identity
    identity-keeps from to dc w own p =
        let via = λ (h : Headers) (x : Unit {0}) (w1 : W).
          answered via_created (api.core.create_via h from.iss from.sub to.id w1) in
        let contact = λ (h : Headers) (w0 : W).
          answered created (api.core.create h (contact_request from dc) w0) in
        follow-keeps P (lift (out_call_metadata dc to.sub) w)
          (λ h w0. follow (contact h w0) (via h)) p
          (λ h _ w0 p0.
            follow-keeps P (contact h w0) (via h) (keeps.create h dc from to w0 own p0)
              (λ _ _ w1 p1. keeps.create_via h dc from to w1 own p1))

    pub send_through-keeps :
        (from to : Peer) (dc : ℤ) (send : Headers → Io W (Unit {0})) (w : W)
        → IsAddressed dc from to
        → ((h : Headers) (w' : W) → P w' → P (send h w').1)
        → P w
        → P (send_through api.core from to dc send w).1
    unfolding send_through prepare_outgoing_send_core_request
    send_through-keeps from to dc send w own sends p =
        let via = λ (h : Headers) (w2 : W). lift (ok (("x-webitel-via", to.id) ∷ [])) w2 in
        let own_headers = λ (w1 : W). lift (out_call_metadata dc from.sub) w1 in
        follow-keeps P (prepare_outgoing_send_core_request api.core from to dc w) send
          (follow-keeps P (resolve_internal_contact_identity api.core to from dc w)
            (λ _ w1. follow (own_headers w1) via) (identity-keeps from to dc w own p)
            (λ _ _ w1 p1. follow-keeps P (own_headers w1) via p1 (λ _ _ w2 p2. p2)))
          (λ h _ w3 p3. sends h w3 p3)

    pub resolve_account-keeps : (w : W) → P w → P (resolve_account api event.phone_number.id w).1
    unfolding resolve_account resolve find_account
    resolve_account-keeps w p = go (api.query event.phone_number.id w) (keeps.query w p)
      where
        go :
            (q : Result (Result (List WhatsappBusinessAccount)) × W)
            → P q.1
            → P (resolved (found_row q)).1
        go (err e, w1) p1 = p1
        go (ok (err e), w1) p1 = p1
        go (ok (ok []), w1) p1 = p1
        go (ok (ok (a ∷ rows)), w1) p1 = p1
