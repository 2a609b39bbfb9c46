-- ===== src/Core/Requests.antt =====
-- The requests of internal/core/handler/outbound_message.go, and the messages that the handlers make of
-- them. A generated file's field that no handler reads is left out.
use im_providers_service.Prelude.{String, ℕ, Option, none, List, [], map, string_eq}
use im_providers_service.Prelude.Int.{ℤ}
use im_providers_service.Core.Message.{Message, Image, Document, Interactive, peer_of_sub}

pub record SendResponse : Type 0 where
  pub external_id : String
  pub created_at : ℕ

-- A file of a request, `ProviderFile`.
pub record FileInput : Type 0 where
  pub id : String
  pub url : String
  pub name : String
  pub mime_type : String
  pub size : ℤ

pub record TextRequest : Type 0 where
  pub gate_id : String
  pub external_user_id : String
  pub domain_id : ℤ
  pub text : String

-- `ProviderSendImageRequest` and `ProviderSendDocumentRequest`.
pub record FilesRequest : Type 0 where
  pub gate_id : String
  pub external_user_id : String
  pub domain_id : ℤ
  pub caption : String
  pub files : List FileInput

pub record InteractiveRequest : Type 0 where
  pub gate_id : String
  pub external_user_id : String
  pub domain_id : ℤ
  pub body : String
  -- the domain value that `mapInteractive` makes (in the child Keyboard)
  pub interactive : Option Interactive

pub record SystemRequest : Type 0 where
  pub gate_id : String
  pub external_user_id : String
  pub domain_id : ℤ
  pub event_type : String
  pub vars : List (String × String)

-- The message that all handlers start from.
abbrev pub message_to : String → String → ℤ → String → Message
message_to gate_id user domain text = record {
  gate_id = gate_id;
  domain_id = domain;
  to = peer_of_sub user;
  text = text;
  documents = [];
  images = [];
  interactive = none;
}

abbrev to_image : FileInput → Image
to_image f = record {
  id = f.id;
  file_name = f.name;
  mime_type = f.mime_type;
  url = f.url;
  size = f.size;
}

abbrev to_document : FileInput → Document
to_document f = record {
  id = f.id;
  file_name = f.name;
  mime_type = f.mime_type;
  url = f.url;
  size = f.size;
}

abbrev pub text_message : TextRequest → Message
text_message req = message_to req.gate_id req.external_user_id req.domain_id req.text

abbrev pub image_message : FilesRequest → Message
image_message req = record (message_to req.gate_id req.external_user_id req.domain_id req.caption) {
  images = map to_image req.files;
}

abbrev pub document_message : FilesRequest → Message
document_message req =
    record (message_to req.gate_id req.external_user_id req.domain_id req.caption) {
      documents = map to_document req.files;
    }

abbrev pub interactive_message : InteractiveRequest → Message
interactive_message req =
    record (message_to req.gate_id req.external_user_id req.domain_id req.body) {
      interactive = req.interactive;
    }
