-- ===== src/Whatsapp/Components.antt =====
-- The messages of internal/whatsapp/messaging/components, and what they are sent as. JSON's encoder is
-- the parameter `marshal`. A float64 is the number that its bits make: the code only passes it on.
pub mod Contacts
use im_providers_service.Prelude.{
  String, ℕ, Bool, true, false, not, ◌&&◌, ◌||◌, Option, none, some, List, ◌==◌, string_eq,
  if◌then◌else◌,
}
use im_providers_service.Prelude.Text.{is_blank}
use im_providers_service.Prelude.Failure.{
  Result, ok, err, status, require, ◌and_then◌, invalid_argument, internal,
}
use im_providers_service.Whatsapp.Components.Contacts.{Contact}

pub data MessageType : Type 0 where
  text document image location contact : MessageType

pub record TextMessage : Type 0 where
  pub text : String
  pub allow_preview : Bool

pub record DocumentMessage : Type 0 where
  pub id : String
  pub link : String
  pub caption : Option String
  pub file_name : String

pub record ImageMessage : Type 0 where
  pub id : String
  pub link : String
  pub caption : Option String

pub record LocationMessage : Type 0 where
  pub latitude : ℕ
  pub longitude : ℕ
  pub address : String
  pub name : String

-- ApiCompatibleJsonConverterConfigs
pub record Configs : Type 0 where
  pub reply_to_message : String
  pub sending_phone_number : String

-- BaseMessagePayload; `message_context` is the id in it.
pub record BasePayload : Type 0 where
  pub message_context : Option String
  pub to : String
  pub type : MessageType
  pub messaging_product : String
  pub recipient_type : String

-- What is encoded.
pub data Payload : Type 0 where
  text_payload : BasePayload → TextMessage → Payload
  image_payload : BasePayload → ImageMessage → Payload
  document_payload : BasePayload → DocumentMessage → Payload
  location_payload : BasePayload → LocationMessage → Payload
  contacts_payload : BasePayload → List Contact → Payload

-- The messages that can be sent by the message manager.
pub data BaseMessage : Type 0 where
  a_text : TextMessage → BaseMessage
  an_image : ImageMessage → BaseMessage
  a_document : DocumentMessage → BaseMessage

-- TextMessageConfigs.Validate and NewTextMessage
unfoldable pub new_text_message : String → Bool → Result TextMessage
new_text_message body allow_preview =
    require (not (is_blank body)) "text is required"
    and_then ok (record { text = body; allow_preview = allow_preview })

-- DocumentMessageConfigs.Validate and NewDocumentMessage
unfoldable pub new_document_message :
    String → String → Option String → String → Result DocumentMessage
new_document_message id link caption file_name =
    require (not (is_blank id && is_blank link)) "file id or link is required"
    and_then require (not (is_blank file_name)) "file name is required"
    and_then ok (record { id = id; link = link; caption = caption; file_name = file_name })

-- DocumentMessage.Validate
pub validate_document : DocumentMessage → Result (Unit {0})
validate_document message =
    require (not (is_blank message.file_name)) "document message file name is required"

-- ImageMessageConfigs.Validate and NewImageMessage
unfoldable pub new_image_message : String → String → Option String → Result ImageMessage
new_image_message id link caption =
    require (not (id == "" && link == "")) "image message require image link or ID"
    and_then ok (record { id = id; link = link; caption = caption })

-- ImageMessage.Validate
pub validate_image : ImageMessage → Result (Unit {0})
validate_image message =
    require (not (is_blank message.id && is_blank message.link)) "message.image.validate"

unfoldable pub new_location_message : ℕ → ℕ → LocationMessage
new_location_message latitude longitude = record {
  latitude = latitude;
  longitude = longitude;
  address = "";
  name = "";
}

unfoldable pub set_address : String → LocationMessage → LocationMessage
set_address address message = record message { address = address }

unfoldable pub set_name : String → LocationMessage → LocationMessage
set_name name message = record message { name = name }

-- CreateBaseMessagePayload
abbrev pub base_payload : String → MessageType → BasePayload
base_payload to type = record {
  message_context = none;
  to = to;
  type = type;
  messaging_product = "whatsapp";
  recipient_type = "individual";
}

-- the payload that the `ToJson` methods start from, and its context
abbrev pub addressed : Configs → MessageType → BasePayload
addressed configs type = record (base_payload configs.sending_phone_number type) {
  message_context = if configs.reply_to_message == "" then none else some configs.reply_to_message;
}

-- ApiCompatibleJsonConverterConfigs.Validate
unfoldable pub validate_configs : Configs → Result (Unit {0})
validate_configs configs =
    require (not (is_blank configs.sending_phone_number)) "sending phone number is required"

abbrev pub checked : Result (Unit {0}) → String → Result (Unit {0})
checked (ok _) message = ok tt
checked (err e) message = err (status invalid_argument message)

module _ (marshal : Payload → Result String) where
  abbrev pub encoded : Result String → String → Result String
  encoded (ok body) message = ok body
  encoded (err e) message = err (status internal message)

  -- The `ToJson` methods. A text message's payload has no context.
  unfoldable pub to_json : BaseMessage → Configs → Result String
  to_json (a_text message) configs =
      validate_configs configs
      and_then encoded
          (marshal (text_payload (base_payload configs.sending_phone_number text) message))
          "marshaling text message payload"
  to_json (an_image message) configs =
      checked (validate_configs configs) "validating image message ToJson configs"
      and_then encoded (marshal (image_payload (addressed configs image) message))
          "marshaling image message json data"
  to_json (a_document message) configs =
      checked (validate_configs configs) "validating ToJson document message configs"
      and_then encoded (marshal (document_payload (addressed configs document) message))
          "marshaling document message"

  unfoldable pub location_to_json : LocationMessage → Configs → Result String
  location_to_json message configs =
      encoded (marshal (location_payload (addressed configs location) message))
        "marshaling location message api payload"

  unfoldable pub contacts_to_json : List Contact → Configs → Result String
  contacts_to_json contacts configs =
      encoded (marshal (contacts_payload (addressed configs contact) contacts)) "marshaling json"
