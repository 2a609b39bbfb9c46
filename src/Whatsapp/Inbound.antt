-- ===== src/Whatsapp/Inbound.antt =====
-- What the WhatsApp webhook does with an event: internal/whatsapp/webhook/webhook.usecase.go. Logging is
-- left out. A handler takes a pointer, which is `none` where it is nil.
pub mod Origin
pub mod Calls
pub mod Addressing
pub mod Tests
use Prim.Native.String
use im_providers_service.Prelude.{
  String, ℕ, Bool, true, false, Option, none, some, List, [], ◌∷◌, ◌==◌, string_eq, if◌then◌else◌,
}
use im_providers_service.Prelude.Int.{ℤ}
use im_providers_service.Prelude.Io.{Io, return, fail, follow, ◌>>=◌, ◌>>◌}
use im_providers_service.Prelude.Failure.{
  Failure, Result, ok, err, status, invalid_argument, internal, wrapped, wrap, is_disabled,
}
use im_providers_service.Core.Message.{Peer, SendTextRequest, SendImageRequest, SendDocumentRequest}
use im_providers_service.Whatsapp.Client.{Http, RequestClient}
use im_providers_service.Whatsapp.Components.{DocumentMessage, ImageMessage, LocationMessage}
use im_providers_service.Whatsapp.Components.Contacts.{
  ContactEmail, ContactPhone, Contact, as_metadata,
}
use im_providers_service.Whatsapp.Account.{
  WhatsappBusinessAccount, post_fetch, create_media_client, resolve,
}
use im_providers_service.Whatsapp.Media.{Decoder, get_media_url_by_id, download_media_by_url}
use im_providers_service.Whatsapp.Messanger.{
  Core, SendLocationRequest, SendContactRequest, send_text, send_image, send_document,
  send_location, send_contact,
}
use im_providers_service.Whatsapp.Events.{
  BaseMessageEvent, MediaInfo, Event, text_event, document_event, image_event, location_event,
  contacts_event,
}

-- model.UploadRequest and the fields of model.UploadResponse that are read
pub record UploadRequest : Type 0 where
  pub domain_id : ℤ
  pub mime_type : String
  pub name : String
  pub url : String
  pub external_id : String

pub record UploadResponse : Type 0 where
  pub id : String
  pub size : ℤ

-- The database, the cipher, the clock, HTTP with what JSON makes of its answers, the media service, and
-- the gateway with the messenger.
pub record Services (W : Type 0) : Type 0 where
  pub query : String → Io W (Result (List WhatsappBusinessAccount))
  pub decrypt : String → Result String
  pub now : W → ℕ
  -- time.Now().String()
  pub now_text : W → String
  pub http : Http W
  pub decoder : Decoder
  -- the request and the body of the file
  pub upload_file : UploadRequest → Result String → Io W UploadResponse
  pub core : Core W

-- extractPeerFromWhatsAppBusinessAccount, of an account that is not nil
abbrev pub peer_of_account : WhatsappBusinessAccount → Peer
peer_of_account account = record {
  sub = account.bot.sub;
  iss = account.bot.iss;
  via = none;
  name = "";
  id = account.id;
}

-- extractPeerFromWebhookInput
abbrev pub peer_of_input : String → String → Peer
peer_of_input sender_phone_number sender_name = record {
  sub = sender_phone_number;
  iss = "whatsapp";
  via = none;
  name = sender_name;
  id = "";
}

abbrev pub sender_of : BaseMessageEvent → Peer
sender_of event = peer_of_input event.from event.sender_name

-- A pointer to a text, nil for the empty one.
abbrev pub non_empty : String → Option String
non_empty s = if s == "" then none else some s

-- The text that a pointer points at. The code follows it without a test; the webhook sets it always.
abbrev pub pointed : Option String → String
pointed none = ""
pointed (some s) = s

abbrev pub first_email : List ContactEmail → Option String
first_email [] = none
first_email (e ∷ emails) = some e.email

abbrev pub first_phone : List ContactPhone → Option String
first_phone [] = none
first_phone (p ∷ phones) = some p.phone

abbrev pub text_request : WhatsappBusinessAccount → BaseMessageEvent → String → SendTextRequest
text_request account event body = record {
  to = peer_of_account account;
  from = sender_of event;
  body = body;
  domain_id = account.dc;
}

abbrev pub document_request :
    WhatsappBusinessAccount
    → BaseMessageEvent
    → MediaInfo
    → DocumentMessage
    → UploadResponse
    → SendDocumentRequest
document_request account event info document uploaded = record {
  from = sender_of event;
  to = peer_of_account account;
  body = pointed document.caption;
  documents =
      record {
        file_name = document.file_name;
        mime_type = info.mime_type;
        size = uploaded.size;
        id = uploaded.id;
        url = "";
      }
      ∷ [];
  domain_id = account.dc;
}

abbrev pub image_request :
    WhatsappBusinessAccount
    → BaseMessageEvent
    → MediaInfo
    → ImageMessage
    → UploadResponse
    → SendImageRequest
image_request account event info image uploaded = record {
  from = sender_of event;
  to = peer_of_account account;
  body = pointed image.caption;
  images =
      record {
        mime_type = info.mime_type;
        id = uploaded.id;
        file_name = "";
        url = "";
        size = ℤ.pos 0;
      }
      ∷ [];
  domain_id = account.dc;
}

abbrev pub location_request :
    WhatsappBusinessAccount → BaseMessageEvent → LocationMessage → SendLocationRequest
location_request account event place = record {
  from = sender_of event;
  to = peer_of_account account;
  latitude = place.latitude;
  longitude = place.longitude;
  name = non_empty place.name;
  address = non_empty place.address;
  external_id = event.message_id;
  domain_id = account.dc;
}

abbrev pub contact_request :
    WhatsappBusinessAccount → BaseMessageEvent → Contact → SendContactRequest
contact_request account event contact = record {
  from = sender_of event;
  to = peer_of_account account;
  name = non_empty contact.name.formatted_name;
  email = first_email contact.emails;
  phone_number = first_phone contact.phones;
  metadata = as_metadata contact;
  external_id = "";
  domain_id = account.dc;
}

module _ {W : Type 0} (api : Services W) where
  fetched : Result WhatsappBusinessAccount → Result (Option WhatsappBusinessAccount)
  fetched (ok account) = ok (some account)
  fetched (err e) = err (status internal "preparing whatsapp business account after fetch")

  found : Result (Option WhatsappBusinessAccount) → Result (Option WhatsappBusinessAccount)
  found (ok account) = fetched (post_fetch api.decrypt account)
  found (err e) =
      if is_disabled e
      then ok none
      else err (wrapped "webhook.usecase.resolve_whatsapp_business_account" e)

  -- resolveWhatsappBusinessAccount
  unfoldable pub resolve_account : String → Io W (Option WhatsappBusinessAccount)
  unfolding found fetched
  resolve_account phone_number_id w =
      let (account, w1) = resolve api.query phone_number_id w in (found account, w1)

  -- an error of `errors.Wrap` or `errors.Internal`
  abbrev pub wrapped_by : {A : Type 0} → String → Result A × W → Result A × W
  wrapped_by id (r, w) = (wrap id r, w)

  abbrev pub as_internal : {A : Type 0} → String → Result A × W → Result A × W
  as_internal message (ok a, w) = (ok a, w)
  as_internal message (err e, w) = (err (status internal message), w)

  -- the URL to download from
  abbrev media_url : RequestClient → UploadRequest → Io W String
  media_url client metadata w =
      if metadata.url == ""
      then get_media_url_by_id api.http api.decoder client metadata.external_id w
      else (ok metadata.url, w)

  abbrev upload_with : UploadRequest → RequestClient → Io W UploadResponse
  upload_with metadata client = media_url client metadata >>= λ url.
      download_media_by_url api.http api.decoder client url >>= λ media.
      api.upload_file (record metadata { mime_type = media.1 }) media.0

  abbrev upload_by : UploadRequest → Result RequestClient → Io W UploadResponse
  upload_by metadata (err e) w = (err e, w)
  upload_by metadata (ok client) w = upload_with metadata client w

  unfoldable pub upload_received_media :
      UploadRequest → WhatsappBusinessAccount → Io W UploadResponse
  upload_received_media metadata account w =
      wrapped_by "whatsapp.webhook.usecase.upload_received_media"
        (upload_by metadata (create_media_client (api.now w) account) w)

  -- what a handler does once the account is there; without one it returns nil
  abbrev pub with_account :
      (WhatsappBusinessAccount → Io W (Unit {0})) → Option WhatsappBusinessAccount → Io W (Unit {0})
  with_account deliver none w = (ok tt, w)
  with_account deliver (some account) w = deliver account w

  unfoldable pub deliver_text :
      BaseMessageEvent → String → WhatsappBusinessAccount → Io W (Unit {0})
  deliver_text event body account = send_text api.core (text_request account event body)

  unfoldable pub deliver_document :
      BaseMessageEvent → MediaInfo → DocumentMessage → WhatsappBusinessAccount → Io W (Unit {0})
  deliver_document event info document account =
      upload_received_media
        (record {
          domain_id = account.dc;
          mime_type = info.mime_type;
          name = document.file_name;
          url = document.link;
          external_id = document.id;
        })
        account
      >>= λ uploaded w.
          as_internal "sending document request to IM core"
            (send_document api.core (document_request account event info document uploaded) w)

  unfoldable pub deliver_image :
      BaseMessageEvent → MediaInfo → ImageMessage → WhatsappBusinessAccount → Io W (Unit {0})
  deliver_image event info image account w =
      follow
        (upload_received_media
          (record {
            domain_id = account.dc;
            mime_type = info.mime_type;
            name = String.◌++◌ event.sender_name (String.◌++◌ "-" (api.now_text w));
            url = image.link;
            external_id = info.media_id;
          })
          account w)
        (λ uploaded. send_image api.core (image_request account event info image uploaded))

  unfoldable pub deliver_location :
      BaseMessageEvent → LocationMessage → WhatsappBusinessAccount → Io W (Unit {0})
  deliver_location event place account w =
      wrapped_by "whatsapp.webhook.usecase.handle_location_message"
        (send_location api.core (location_request account event place) w)

  unfoldable pub deliver_contacts :
      BaseMessageEvent → List Contact → WhatsappBusinessAccount → Io W (Unit {0})
  deliver_contacts event [] account w = (ok tt, w)
  deliver_contacts event (contact ∷ contacts) account w =
      follow (send_contact api.core (contact_request account event contact) w)
        (λ _. deliver_contacts event contacts account)

  -- HandleTextMessage, HandleDocumentMessage, HandleImageMessage, HandleLocationMessage and
  -- HandleContactsMessage
  unfoldable pub handle_event : Event → Io W (Unit {0})
  handle_event (text_event event body) w =
      follow
        (wrapped_by "webhook.usecase.handle_text_message" (resolve_account event.phone_number.id w))
        (with_account (deliver_text event body))
  handle_event (document_event event info document) w =
      follow (resolve_account event.phone_number.id w)
        (with_account (deliver_document event info document))
  handle_event (image_event event info image) w =
      follow (resolve_account event.phone_number.id w)
        (with_account (deliver_image event info image))
  handle_event (location_event event place) w =
      follow
        (wrapped_by "whatsapp.webhook.usecase.handle_location_message"
          (resolve_account event.phone_number.id w))
        (with_account (deliver_location event place))
  handle_event (contacts_event event contacts) w =
      follow
        (wrapped_by "whatsapp.webhook.usecase.handle_contacts_message"
          (resolve_account event.phone_number.id w))
        (with_account (deliver_contacts event contacts))

  -- A handler that is given a pointer.
  unfoldable pub handle_pointer : Option Event → Io W (Unit {0})
  handle_pointer none = fail (status invalid_argument "received nil pointer event")
  handle_pointer (some event) = handle_event event
