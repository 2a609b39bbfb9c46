-- ===== src/Whatsapp/Events.antt =====
-- The notifications of the WhatsApp Cloud API, internal/whatsapp/webhook/webhook.types.go, and the
-- events that the webhook makes of them, internal/whatsapp/webhook/events. Fields that are not read are
-- left out; an omitted object of the JSON is the record of empty fields.
use im_providers_service.Prelude.{String, ℕ, Bool, List}
use im_providers_service.Whatsapp.Client.{RequestClient}
use im_providers_service.Whatsapp.Components.{DocumentMessage, ImageMessage, LocationMessage}
use im_providers_service.Whatsapp.Components.Contacts.{Contact}

-- NotificationMessageTypeEnum
pub data NotificationType : Type 0 where
  text audio image button document order sticker system video reaction : NotificationType
  interactive unknown location contacts unsupported : NotificationType
  other_type : String → NotificationType

pub record ImagePayload : Type 0 where
  pub id : String
  pub mime_type : String
  pub sha256 : String
  pub caption : String
  pub url : String

pub record DocumentPayload : Type 0 where
  pub id : String
  pub mime_type : String
  pub sha256 : String
  pub caption : String
  pub filename : String
  pub link : String

pub record LocationPayload : Type 0 where
  pub latitude : ℕ
  pub longitude : ℕ
  pub name : String
  pub address : String

pub record Message : Type 0 where
  pub id : String
  pub from : String
  pub timestamp : String
  pub type : NotificationType
  -- of its context: `forwarded` and `id`
  pub forwarded : Bool
  pub context_id : String
  pub text_body : String
  pub image : ImagePayload
  pub document : DocumentPayload
  pub location : LocationPayload
  pub contacts : List Contact

pub record MessagesValue : Type 0 where
  pub display_phone_number : String
  pub phone_number_id : String
  -- the profile names of the contacts
  pub contact_names : List String
  pub messages : List Message

-- The JSON text of the value stands for it: its type depends on the field.
pub record Change : Type 0 where
  pub value : String
  pub field : String

pub record Entry : Type 0 where
  pub id : String
  pub changes : List Change

pub record BusinessPhoneNumber : Type 0 where
  pub display_number : String
  pub id : String

pub record BaseMessageEvent : Type 0 where
  pub business_account_id : String
  pub requester : RequestClient
  pub message_id : String
  pub from : String
  pub sender_name : String
  pub replied_to_message_id : String
  pub timestamp : String
  pub is_forwarder : Bool
  pub phone_number : BusinessPhoneNumber

-- BaseMediaMessageEvent, without the event that it embeds
pub record MediaInfo : Type 0 where
  pub media_id : String
  pub mime_type : String
  pub sha256 : String

-- The events, each with the base that it embeds.
pub data Event : Type 0 where
  text_event : BaseMessageEvent → String → Event
  document_event : BaseMessageEvent → MediaInfo → DocumentMessage → Event
  image_event : BaseMessageEvent → MediaInfo → ImageMessage → Event
  location_event : BaseMessageEvent → LocationMessage → Event
  contacts_event : BaseMessageEvent → List Contact → Event
