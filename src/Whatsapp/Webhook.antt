-- ===== src/Whatsapp/Webhook.antt =====
-- The WhatsApp webhook: internal/whatsapp/webhook/webhook.manager.go. JSON's decoder and the handler of
-- the events are parameters. Logging is left out.
pub mod Batch
use im_providers_service.Prelude.{
  String, Option, none, some, List, [], ◌∷◌, ◌==◌, string_eq, if◌then◌else◌,
}
use im_providers_service.Prelude.Io.{Io, return, fail, follow, ◌>>◌}
use im_providers_service.Prelude.Failure.{
  Failure, Result, ok, err, status, invalid_argument, internal,
}
use im_providers_service.Whatsapp.Client.{RequestClient}
use im_providers_service.Whatsapp.Components.{
  DocumentMessage, ImageMessage, LocationMessage, new_document_message, new_image_message,
  new_location_message, set_name, set_address,
}
use im_providers_service.Whatsapp.Events.{
  NotificationType, text, document, image, location, contacts, LocationPayload, Message,
  MessagesValue, Change, Entry, BusinessPhoneNumber, BaseMessageEvent, MediaInfo, Event, text_event,
  document_event, image_event, location_event, contacts_event,
}

pub record Json : Type 0 where
  pub payload : String → Result (List Entry)
  -- json.Marshal of a decoded value, and json.Unmarshal to MessagesValue
  pub encode : String → Result String
  pub messages : String → Result MessagesValue

-- CoreIntegrationHandler: one method for each kind of event.
abbrev pub Handler : Type 0 → Type 0
Handler W = Event → Io W (Unit {0})

abbrev pub decoded : {A : Type 0} → Result A → Result A
decoded (ok value) = ok value
decoded (err e) = err (status internal "unmarshaling webhook value")

abbrev pub decode_with : {A : Type 0} → (String → Result A) → Result String → Result A
decode_with decode (ok json) = decoded (decode json)
decode_with decode (err e) = err (status internal "marshaling any payload")

-- unmarshallWebhookValue
unfoldable pub unmarshal_value : Json → String → Result MessagesValue
unmarshal_value json value = decode_with json.messages (json.encode value)

abbrev pub first_name : List String → String
first_name [] = ""
first_name (name ∷ names) = name

-- handleMessagesSubscriptionEvents, the record: what the events of a change share
pub record Subscription : Type 0 where
  pub business_account_id : String
  pub sender_name : String
  pub phone_number : BusinessPhoneNumber

abbrev pub subscription : String → MessagesValue → Subscription
subscription entry_id value = record {
  business_account_id = entry_id;
  sender_name = first_name value.contact_names;
  phone_number = record { display_number = value.display_phone_number; id = value.phone_number_id };
}

abbrev pub base_event : RequestClient → Subscription → Message → BaseMessageEvent
base_event client sub message = record {
  business_account_id = sub.business_account_id;
  requester = client;
  message_id = message.id;
  from = message.from;
  sender_name = sub.sender_name;
  replied_to_message_id = message.context_id;
  timestamp = message.timestamp;
  is_forwarder = message.forwarded;
  phone_number = sub.phone_number;
}

abbrev pub document_made : BaseMessageEvent → MediaInfo → Result DocumentMessage → Result Event
document_made base info (err e) = err e
document_made base info (ok made) = ok (document_event base info made)

abbrev pub image_made : BaseMessageEvent → MediaInfo → Result ImageMessage → Result Event
image_made base info (err e) = err e
image_made base info (ok made) = ok (image_event base info made)

abbrev pub location_of : LocationPayload → LocationMessage
location_of place =
    set_address place.address
      (set_name place.name (new_location_message place.latitude place.longitude))

-- The switch on the type, as far as the event that is handled; `none` where there is no case.
unfoldable pub event_of : BaseMessageEvent → NotificationType → Message → Option (Result Event)
event_of base text message = some (ok (text_event base message.text_body))
event_of base document message = some (
    document_made base
      (record {
        media_id = message.document.id;
        mime_type = message.document.mime_type;
        sha256 = message.document.sha256;
      })
      (new_document_message message.document.id message.document.link
        (some message.document.caption) message.document.filename))
event_of base image message = some (
    image_made base
      (record {
        media_id = message.image.id;
        mime_type = message.image.mime_type;
        sha256 = message.image.sha256;
      })
      (new_image_message message.image.id message.image.url (some message.image.caption)))
event_of base location message = some (ok (location_event base (location_of message.location)))
event_of base contacts message = some (ok (contacts_event base message.contacts))
event_of base _ message = none

module _ {W : Type 0} (json : Json) (client : RequestClient) (handler : Handler W) where
  abbrev handle_event : Option (Result Event) → Io W (Unit {0})
  handle_event none = return tt
  handle_event (some (err e)) = fail e
  handle_event (some (ok event)) = handler event

  abbrev pub handle_message : Subscription → Message → Io W (Unit {0})
  handle_message sub message =
      handle_event (event_of (base_event client sub message) message.type message)

  -- handleMessagesSubscriptionEvents
  unfoldable pub handle_messages : Subscription → List Message → Io W (Unit {0})
  handle_messages sub [] = return tt
  handle_messages sub (message ∷ messages) =
      handle_message sub message >> handle_messages sub messages

  abbrev pub events_handled : Result (Unit {0}) × W → Result (Unit {0}) × W
  events_handled (ok _, w) = (ok tt, w)
  events_handled (err e, w) = (err (status internal "handling messages subscription events"), w)

  abbrev pub handle_value : String → Result MessagesValue → Io W (Unit {0})
  handle_value entry_id (err e) w = fail e w
  handle_value entry_id (ok value) w =
      events_handled (handle_messages (subscription entry_id value) value.messages w)

  -- one turn of the inner loop
  unfoldable pub handle_change : String → Change → Io W (Unit {0})
  handle_change entry_id change =
      if change.field == "messages"
      then handle_value entry_id (unmarshal_value json change.value)
      else return tt

  unfoldable pub handle_changes : String → List Change → Io W (Unit {0})
  handle_changes entry_id [] = return tt
  handle_changes entry_id (change ∷ changes) =
      handle_change entry_id change >> handle_changes entry_id changes

  unfoldable pub handle_entries : List Entry → Io W (Unit {0})
  handle_entries [] = return tt
  handle_entries (entry ∷ entries) = handle_changes entry.id entry.changes >> handle_entries entries

  abbrev pub handle_payload : Result (List Entry) → Io W (Unit {0})
  handle_payload (err e) = fail (status invalid_argument "unmarshaling paylaod data")
  handle_payload (ok entries) = handle_entries entries

  -- WebhookManager.HandleWebhook
  unfoldable pub handle_webhook : String → Io W (Unit {0})
  handle_webhook payload = handle_payload (json.payload payload)

-- WebhookManager.Verify: the return before its test is what runs.
pub verify : String → String → String → Result String
verify token challenge mode = ok challenge
