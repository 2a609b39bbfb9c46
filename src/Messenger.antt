-- ===== src/Messenger.antt =====
-- The messenger of internal/core/service/message.go, which turns a request into a call of the gateway,
-- and the header that every call gets in
-- infra/client/grpc/client.go. The gateway's API, `uuid.Parse` and `structpb.NewStruct` are parameters;
-- the empty text stands for the nil UUID. A request holds no nil pointers to files.
pub mod Identity
pub mod Stamp
pub mod Provider
pub mod Decorated
mod Tests
use im_providers_service.Prelude.{
  String, ℕ, Option, none, some, List, [], ◌∷◌, ◌==◌, string_eq, if◌then◌else◌, map,
}
use im_providers_service.Prelude.Int.{ℤ}
use im_providers_service.Prelude.Dict.{insert}
use im_providers_service.Prelude.Io.{Io, follow}
use im_providers_service.Prelude.Failure.{
  Failure, Result, ok, err, wrapped, wrap, status, invalid_argument,
}
use im_providers_service.Core.Message.{
  Peer, Image, Document, SendTextRequest, SendImageRequest, SendDocumentRequest,
}
use im_providers_service.Whatsapp.Components.Contacts.{Metadata}
use im_providers_service.Whatsapp.Messanger.{Headers, SendLocationRequest, SendContactRequest}

-- `sharedmodel.SendInteractiveCallbackRequest`
pub record SendInteractiveCallbackRequest : Type 0 where
  pub from : Peer
  pub to : Peer
  pub domain_id : ℤ
  pub in_reply_to : String
  pub button_code : String
  pub callback_data : String

-- The gateway's peers, of which only the kind of contacts is made, and its requests.
pub record PeerIdentity : Type 0 where
  pub sub : String
  pub iss : String
  pub via : Option String

pub record DocumentInput : Type 0 where
  pub id : String
  pub url : String
  pub file_name : String
  pub mime_type : String
  pub size_bytes : Option ℤ

pub record TextCall : Type 0 where
  pub to : PeerIdentity
  pub body : String

pub record DocumentCall : Type 0 where
  pub to : PeerIdentity
  pub body : String
  pub documents : List DocumentInput

pub record LocationCall : Type 0 where
  pub to : PeerIdentity
  pub latitude : ℕ
  pub longitude : ℕ
  pub name : Option String
  pub address : Option String
  pub send_id : String

-- `S` is the type of `structpb.Struct`.
pub record ContactCall (S : Type 0) : Type 0 where
  pub to : PeerIdentity
  pub name : Option String
  pub email : Option String
  pub phone_number : Option String
  pub metadata : S
  pub send_id : String

pub record CallbackCall : Type 0 where
  pub in_reply_to : String
  pub button_code : String
  pub callback_data : String

-- The API, by the outgoing metadata of a call; an answer is the message's id.
pub record Gateway (W S : Type 0) : Type 0 where
  pub parse : String → Option String
  pub new_struct : List (String × Metadata) → Result S
  pub send_text : Headers → TextCall → Io W String
  pub send_document : Headers → DocumentCall → Io W String
  pub send_location : Headers → LocationCall → Io W String
  pub send_contact : Headers → ContactCall S → Io W String
  pub send_interactive_callback : Headers → CallbackCall → Io W (Unit {0})

-- What a context holds: the identity of WithIdentity, and the outgoing metadata.
pub record Context : Type 0 where
  pub identity : Option String
  pub headers : Headers

-- `SendTextResponse` and the others
pub record SendResponse : Type 0 where
  pub id : String
  pub to : Peer

-- The interceptor of every client.
abbrev add_provider : Option String → Headers → Headers
add_provider none headers = headers
add_provider (some identity) headers = insert "x-webitel-provider" identity headers

unfoldable pub outgoing : Context → Headers
outgoing ctx = add_provider ctx.identity (insert "x-webitel-type" "provider" ctx.headers)

abbrev pub peer_to_pb : Peer → PeerIdentity
peer_to_pb peer = record { sub = peer.sub; iss = peer.iss; via = peer.via }

abbrev pub image_input : Image → DocumentInput
image_input image = record {
  id = image.id;
  url = image.url;
  file_name = image.file_name;
  mime_type = image.mime_type;
  size_bytes = none;
}

abbrev pub document_input : Document → DocumentInput
document_input document = record {
  id = document.id;
  url = document.url;
  file_name = document.file_name;
  mime_type = document.mime_type;
  size_bytes = some document.size;
}

module _ {W S : Type 0} (gateway : Gateway W S) where
  unfoldable pub parse_uuid : String → String
  parse_uuid id = if id == "" then "" else elim (gateway.parse id) [ some uuid ↦ uuid | none ↦ "" ]

  abbrev pub responded : Peer → (Failure → Failure) → Result String × W → Result SendResponse × W
  responded to failed (ok id, w) = (ok (record { id = parse_uuid id; to = to }), w)
  responded to failed (err e, w) = (err (failed e), w)

  -- The methods of messageService.
  unfoldable pub send_text : Context → SendTextRequest → Io W SendResponse
  send_text ctx req w =
      responded req.to (λ e. e)
        (gateway.send_text (outgoing ctx) (record { to = peer_to_pb req.to; body = req.body }) w)

  unfoldable pub send_image : Context → SendImageRequest → Io W SendResponse
  send_image ctx req w =
      responded req.to (λ e. e)
        (gateway.send_document (outgoing ctx)
          (record {
            to = peer_to_pb req.to;
            body = req.body;
            documents = map image_input req.images;
          })
          w)

  unfoldable pub send_document : Context → SendDocumentRequest → Io W SendResponse
  send_document ctx req w =
      responded req.to (λ e. e)
        (gateway.send_document (outgoing ctx)
          (record {
            to = peer_to_pb req.to;
            body = req.body;
            documents = map document_input req.documents;
          })
          w)

  unfoldable pub send_location : Context → SendLocationRequest → Io W SendResponse
  send_location ctx req w = responded req.to (wrapped "service.message.send_location") (
      gateway.send_location (outgoing ctx)
        (record {
          to = peer_to_pb req.to;
          latitude = req.latitude;
          longitude = req.longitude;
          name = req.name;
          address = req.address;
          send_id = req.external_id;
        })
        w)

  -- the rest of SendContact, from the metadata as a struct
  abbrev pub contact_with : Context → SendContactRequest → Result S → Io W SendResponse
  contact_with ctx req (err e) w =
      (err (status invalid_argument "converting model metadata to structb"), w)
  contact_with ctx req (ok metadata) w = responded req.to (wrapped "service.message.send_contact") (
      gateway.send_contact (outgoing ctx)
        (record {
          to = peer_to_pb req.to;
          name = req.name;
          email = req.email;
          phone_number = req.phone_number;
          metadata = metadata;
          send_id = "";
        })
        w)

  unfoldable pub send_contact : Context → SendContactRequest → Io W SendResponse
  send_contact ctx req = contact_with ctx req (gateway.new_struct req.metadata)

  unfoldable pub send_interactive_callback :
      Context → SendInteractiveCallbackRequest → Io W (Unit {0})
  send_interactive_callback ctx req = gateway.send_interactive_callback (outgoing ctx) (record {
    in_reply_to = req.in_reply_to;
    button_code = req.button_code;
    callback_data = req.callback_data;
  })
