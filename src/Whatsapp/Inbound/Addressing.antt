-- ===== src/Whatsapp/Inbound/Addressing.antt =====
-- What a handler of internal/whatsapp/webhook/webhook.usecase.go calls, and in whose names.
use im_providers_service.Prelude.{
  String, ◌≡◌, refl, Option, none, some, List, [], ◌∷◌, ◌==◌, string_eq,
}
use im_providers_service.Prelude.Io.{Io, follow}
use im_providers_service.Prelude.Keeps.{follow-keeps, if-keeps}
use im_providers_service.Prelude.Failure.{Result, ok, err, wrap}
use im_providers_service.Whatsapp.Client.{RequestClient}
use im_providers_service.Whatsapp.Components.{DocumentMessage, ImageMessage, LocationMessage}
use im_providers_service.Whatsapp.Components.Contacts.{Contact}
use im_providers_service.Whatsapp.Account.{WhatsappBusinessAccount, create_media_client}
use im_providers_service.Whatsapp.Media.{get_media_url_by_id, download_media_by_url}
use im_providers_service.Whatsapp.Media.Calls.{
  get_media_url_by_id-keeps, download_media_by_url-keeps,
}
use im_providers_service.Whatsapp.Messanger.{
  send_text, send_image, send_document, send_location, send_contact,
}
use im_providers_service.Whatsapp.Events.{
  BaseMessageEvent, MediaInfo, Event, text_event, document_event, image_event, location_event,
  contacts_event,
}
use im_providers_service.Whatsapp.Inbound.{
  UploadRequest, Services, document_request, image_request, peer_of_account, sender_of,
  resolve_account, wrapped_by, as_internal, media_url, upload_with, upload_by,
  upload_received_media, with_account, deliver_text, deliver_document, deliver_image,
  deliver_location, deliver_contacts, handle_event,
}
use im_providers_service.Whatsapp.Inbound.Calls.{
  base_of, IsAddressed, CallsKeep, as_internal-keeps, send_through-keeps, resolve_account-keeps,
}
use im_providers_service.Whatsapp.Inbound.Origin.{resolve_account-first}

module _ {W : Type 0} (api : Services W) (P : W → Type 0) (event : BaseMessageEvent)
    (keeps : CallsKeep api P event) where
  upload_with-keeps :
      (metadata : UploadRequest) (client : RequestClient) (w : W)
      → P w
      → P (upload_with api metadata client w).1
  upload_with-keeps metadata client w p =
      let download = download_media_by_url api.http api.decoder client in
      let upload = λ (media : Result String × String).
        api.upload_file (record metadata { mime_type = media.1 }) media.0 in
      follow-keeps P (media_url api client metadata w) (λ url w1. follow (download url w1) upload)
        (if-keeps P (metadata.url == "")
          (get_media_url_by_id api.http api.decoder client metadata.external_id w)
          (ok metadata.url, w)
          (get_media_url_by_id-keeps api.http P keeps.http api.decoder client metadata.external_id w
            p)
          p)
        (λ url _ w1 p1.
          follow-keeps P (download url w1) upload
            (download_media_by_url-keeps api.http P keeps.http api.decoder client url w1 p1)
            (λ media _ w2 p2. keeps.upload_file _ media.0 w2 p2))

  upload_by-keeps :
      (metadata : UploadRequest) (client : Result RequestClient) (w : W)
      → P w
      → P (upload_by api metadata client w).1
  upload_by-keeps metadata (err e) w p = p
  upload_by-keeps metadata (ok client) w p = upload_with-keeps metadata client w p

  upload_received_media-keeps :
      (metadata : UploadRequest) (a : WhatsappBusinessAccount) (w : W)
      → P w
      → P (upload_received_media api metadata a w).1
  unfolding upload_received_media
  upload_received_media-keeps metadata a w p =
      upload_by-keeps metadata (create_media_client (api.now w) a) w p

  -- An account with the peer and the domain of the row.
  IsOwn : WhatsappBusinessAccount → Type 0
  IsOwn a = IsAddressed api P event a.dc (sender_of event) (peer_of_account a)

  with_account-keeps :
      (r : Result (Option WhatsappBusinessAccount) × W)
      (deliver : WhatsappBusinessAccount → Io W (Unit {0}))
      → P r.1
      → ((a : WhatsappBusinessAccount) → r.0 ≡ ok (some a) → IsOwn a)
      → ((a : WhatsappBusinessAccount) (w : W) → IsOwn a → P w → P (deliver a w).1)
      → P (follow r (with_account api deliver)).1
  with_account-keeps (err e, w) deliver p own h = p
  with_account-keeps (ok none, w) deliver p own h = p
  with_account-keeps (ok (some a), w) deliver p own h = h a w (own a refl) p

  resolved-IsOwn :
      (w : W) (a : WhatsappBusinessAccount)
      → (resolve_account api event.phone_number.id w).0 ≡ ok (some a)
      → IsOwn a
  unfolding IsOwn
  resolved-IsOwn w a h =
      let (row, rows, answered_row, same) = resolve_account-first api event.phone_number.id w a h in
      (row, rows, w, answered_row, same.1, refl, same.0)

  -- errors.Wrap changes no account.
  wrap-ok : {A : Type 0} (id : String) (r : Result A) (a : A) → wrap id r ≡ ok a → r ≡ ok a
  wrap-ok id (ok b) a h = h
  wrap-ok id (err e) a h = absurd (cc h)

  deliver_contacts-keeps :
      (contacts : List Contact) (a : WhatsappBusinessAccount) (w : W)
      → IsOwn a
      → P w
      → P (deliver_contacts api event contacts a w).1
  unfolding deliver_contacts send_contact IsOwn
  deliver_contacts-keeps [] a w own p = p
  deliver_contacts-keeps (contact ∷ contacts) a w own p =
      follow-keeps P (send_contact api.core _ w) (λ _. deliver_contacts api event contacts a)
        (send_through-keeps api P event keeps (sender_of event) (peer_of_account a) a.dc _ w own
          (λ h w1 p1. keeps.send_contact h _ w1 own p1) p)
        (λ _ _ w2 p2. deliver_contacts-keeps contacts a w2 own p2)

  text-keeps :
      (body : String) (a : WhatsappBusinessAccount) (w : W)
      → IsOwn a
      → P w
      → P (deliver_text api event body a w).1
  unfolding deliver_text send_text IsOwn
  text-keeps body a w own p =
      send_through-keeps api P event keeps (sender_of event) (peer_of_account a) a.dc _ w own
        (λ h w1 p1. keeps.send_text h _ w1 own p1) p

  document-keeps :
      (info : MediaInfo) (document : DocumentMessage) (a : WhatsappBusinessAccount) (w : W)
      → IsOwn a
      → P w
      → P (deliver_document api event info document a w).1
  unfolding deliver_document send_document IsOwn
  document-keeps info document a w own p =
      follow-keeps P (upload_received_media api _ a w)
        (λ uploaded w1.
          as_internal api "sending document request to IM core"
            (send_document api.core (document_request a event info document uploaded) w1))
        (upload_received_media-keeps _ a w p)
        (λ uploaded _ w1 p1. as_internal-keeps api P event _ _ (
          send_through-keeps api P event keeps (sender_of event) (peer_of_account a) a.dc _ w1 own
            (λ h w2 p2. keeps.send_document h _ w2 own p2) p1))

  image-keeps :
      (info : MediaInfo) (image : ImageMessage) (a : WhatsappBusinessAccount) (w : W)
      → IsOwn a
      → P w
      → P (deliver_image api event info image a w).1
  unfolding deliver_image send_image IsOwn
  image-keeps info image a w own p =
      follow-keeps P (upload_received_media api _ a w)
        (λ uploaded. send_image api.core (image_request a event info image uploaded))
        (upload_received_media-keeps _ a w p)
        (λ uploaded _ w1 p1.
          send_through-keeps api P event keeps (sender_of event) (peer_of_account a) a.dc _ w1 own
            (λ h w2 p2. keeps.send_image h _ w2 own p2) p1)

  location-keeps :
      (place : LocationMessage) (a : WhatsappBusinessAccount) (w : W)
      → IsOwn a
      → P w
      → P (deliver_location api event place a w).1
  unfolding deliver_location send_location IsOwn
  location-keeps place a w own p =
      send_through-keeps api P event keeps (sender_of event) (peer_of_account a) a.dc _ w own
        (λ h w1 p1. keeps.send_location h _ w1 own p1) p

  -- A handler that resolves the account first, and wraps an error of that or does not.
  handler-keeps :
      (deliver : WhatsappBusinessAccount → Io W (Unit {0})) (w : W)
      → ((a : WhatsappBusinessAccount) (w : W) → IsOwn a → P w → P (deliver a w).1)
      → P w
      → P (follow (resolve_account api event.phone_number.id w) (with_account api deliver)).1
  handler-keeps deliver w h p =
      with_account-keeps _ deliver (resolve_account-keeps api P event keeps w p) (resolved-IsOwn w)
        h

  wrapping_handler-keeps :
      (id : String) (deliver : WhatsappBusinessAccount → Io W (Unit {0})) (w : W)
      → ((a : WhatsappBusinessAccount) (w : W) → IsOwn a → P w → P (deliver a w).1)
      → P w
      → P
          (follow
            (wrapped_by api id (resolve_account api event.phone_number.id w))
            (with_account api deliver)).1
  wrapping_handler-keeps id deliver w h p =
      with_account-keeps _ deliver (resolve_account-keeps api P event keeps w p)
        (λ a e. resolved-IsOwn w a (wrap-ok id _ (some a) e)) h

-- Whatever the event, its handler makes only these calls: the query for the number that the event was
-- sent to, requests to the API, an upload, the sender's contact and via, and the delivery, and each of
-- the last is from the sender of the event to the bot of the first account that the query answers, in
-- the domain of that account. Every property of the world that such calls keep, the handler keeps.
pub handle_event-keeps :
    {W : Type 0} (api : Services W) (P : W → Type 0) (e : Event) (w : W)
    → CallsKeep api P (base_of e)
    → P w
    → P (handle_event api e w).1
unfolding handle_event
handle_event-keeps api P (text_event base body) w keeps p =
    wrapping_handler-keeps api P base keeps _ (deliver_text api base body) w
      (text-keeps api P base keeps body) p
handle_event-keeps api P (document_event base info document) w keeps p =
    handler-keeps api P base keeps (deliver_document api base info document) w
      (document-keeps api P base keeps info document) p
handle_event-keeps api P (image_event base info image) w keeps p =
    handler-keeps api P base keeps (deliver_image api base info image) w
      (image-keeps api P base keeps info image) p
handle_event-keeps api P (location_event base place) w keeps p =
    wrapping_handler-keeps api P base keeps _ (deliver_location api base place) w
      (location-keeps api P base keeps place) p
handle_event-keeps api P (contacts_event base contacts) w keeps p =
    wrapping_handler-keeps api P base keeps _ (deliver_contacts api base contacts) w
      (deliver_contacts-keeps api P base keeps contacts) p
