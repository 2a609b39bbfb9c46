-- ===== src/Whatsapp/Messaging.antt =====
-- Messages out to WhatsApp: internal/whatsapp/messaging/messaging.usecase.go, message.manager.go,
-- messaging.model.go and messaging.repository.go. The query, the cipher, the clock, the gateway, HTTP and
-- JSON are parameters.
pub mod Posting
pub mod Tests
use Prim.Native.String
use im_providers_service.Prelude.{
  String, ℕ, Bool, true, false, Option, none, some, List, [], ◌∷◌, ◌==◌, nat_eq, string_eq, ◌||◌,
  if◌then◌else◌,
}
use im_providers_service.Prelude.Int.{ℤ}
use im_providers_service.Prelude.Text.{decimal_ℤ}
use im_providers_service.Prelude.Io.{Io, return, fail, follow, ◌>>=◌}
use im_providers_service.Prelude.Failure.{
  Failure, Code, Result, ok, err, status, plain, invalid_argument, internal, unauthenticated,
  not_found, resource_exhausted, permission_denied, wrap, wrapped, is_no_rows, err_no_rows,
}
use im_providers_service.Core.Message.{Message, Image, Document, MessageResponse}
use im_providers_service.Whatsapp.Client.{
  Http, RequestClient, ApiRequest, new_request_client, with_access_token, new_api_request, set_body,
  execute, joined,
}
use im_providers_service.Whatsapp.Components.{
  Payload, BaseMessage, TextMessage, ImageMessage, DocumentMessage, a_text, an_image, a_document,
  new_text_message, new_image_message, new_document_message, to_json,
}
use im_providers_service.Whatsapp.Account.{Contact, one_row, has_passed}

pub record WhatsAppBusinessAccount : Type 0 where
  pub phone_number : String
  pub phone_number_id : String
  pub business_id : String
  pub access_token_encrypted : String
  pub access_token_decrypted : String
  pub access_token_expires_at : Option ℕ
  pub contact : Contact

-- IsTokenExpired
unfoldable pub is_token_expired : ℕ → WhatsAppBusinessAccount → Bool
is_token_expired now account = has_passed now account.access_token_expires_at

abbrev pub with_token : WhatsAppBusinessAccount → Result String → Result WhatsAppBusinessAccount
with_token account (ok token) = ok (record account { access_token_decrypted = token })
with_token account (err e) = err (status internal "decypting access token")

-- PostFetch, of an account that is not nil
unfoldable pub post_fetch :
    (String → Result String) → WhatsAppBusinessAccount → Result WhatsAppBusinessAccount
post_fetch decrypt account =
    if account.access_token_decrypted == ""
    then with_token account (decrypt account.access_token_encrypted)
    else ok account

pub record MessageManager : Type 0 where
  pub requester : RequestClient
  pub phone_number_id : String

-- newMessageManager, round CreateRequestClient
abbrev pub manager_of : WhatsAppBusinessAccount → Result RequestClient → Result MessageManager
manager_of account (ok client) =
    ok (record { requester = client; phone_number_id = account.phone_number_id })
manager_of account (err e) = err e

abbrev pub manager_of_fetched : ℕ → Result WhatsAppBusinessAccount → Result MessageManager
manager_of_fetched now (err e) = err e
manager_of_fetched now (ok account) =
    if is_token_expired now account
    then err (status unauthenticated "access token is expired for this whatsapp business account")
    else manager_of account
        (new_request_client (with_access_token account.access_token_decrypted ∷ []))

-- prepareMessageManagerFromBusinessAccount
unfoldable pub prepare_message_manager :
    ℕ → (String → Result String) → WhatsAppBusinessAccount → Result MessageManager
prepare_message_manager now decrypt account = manager_of_fetched now (post_fetch decrypt account)

pub record MessageSendError : Type 0 where
  pub message : String
  pub code : ℕ

pub record MessageSendResponse : Type 0 where
  -- the ids of its messages
  pub messages : List String
  pub error : Option MessageSendError

pub record StatusResponse : Type 0 where
  pub success : Bool
  pub error : Option MessageSendError

-- the switch of ToGRPCError
unfoldable pub code_of_meta : ℕ → Code
code_of_meta code =
    if code == 190
    then unauthenticated
    else if code == 100
    then invalid_argument
    else if code == 4 || code == 17 || code == 80007
    then resource_exhausted
    else if code == 10
    then permission_denied
    else internal

-- ToGRPCError
unfoldable pub to_grpc_error : MessageSendError → Failure
to_grpc_error e = status (code_of_meta e.code) e.message

-- what is read of the API, and written to it
pub record Json : Type 0 where
  pub marshal : Payload → Result String
  pub send_response : String → Result MessageSendResponse
  pub status_response : String → Result StatusResponse
  -- the body that readMessage marshals, of a message's id and whether typing is shown
  pub read_body : String → Bool → Result String

pub record Services (W : Type 0) : Type 0 where
  -- the rows for a gate's id
  pub query : Option String → Io W (Result (List WhatsAppBusinessAccount))
  pub decrypt : String → Result String
  pub now : W → ℕ
  -- Locate, of the outgoing metadata, the id and the domain: the item's sub, empty if there is none
  pub locate : List (String × String) → String → ℤ → Io W String
  pub http : Http W
  pub json : Json

-- extractGateID
unfoldable pub extract_gate_id : String → Option String
extract_gate_id gate = if gate == "" then none else some gate

abbrev pub first_id : List String → String
first_id [] = ""
first_id (id ∷ ids) = id

-- Go's panic on the first element of an empty slice, as an error that no modelled code makes else.
abbrev pub out_of_range : Failure
out_of_range = plain "runtime error: index out of range [0] with length 0"

abbrev pub text_made : Result TextMessage → Result BaseMessage
text_made (ok message) = ok (a_text message)
text_made (err e) = err (wrapped "messaging.usecase.send_text" e)

abbrev pub image_made : Result ImageMessage → Result BaseMessage
image_made (ok message) = ok (an_image message)
image_made (err e) = err e

abbrev pub document_made : Result DocumentMessage → Result BaseMessage
document_made (ok message) = ok (a_document message)
document_made (err e) = err e

-- The messages that SendText, SendImage and SendDocument make of a request.
unfoldable pub text_of : Message → Result BaseMessage
text_of req = text_made (new_text_message req.text false)

abbrev pub image_with : String → List Image → Result BaseMessage
image_with caption [] = err out_of_range
image_with caption (image ∷ images) = image_made (new_image_message "" image.url (some caption))

unfoldable pub image_of : Message → Result BaseMessage
image_of req = image_with req.text req.images

abbrev pub document_with : String → List Document → Result BaseMessage
document_with caption [] = err out_of_range
document_with caption (document ∷ documents) =
    document_made (new_document_message "" document.url (some caption) document.file_name)

unfoldable pub document_of : Message → Result BaseMessage
document_of req = document_with req.text req.documents

module _ {W : Type 0} (api : Services W) where
  abbrev pub row_error : Failure → Failure
  row_error e =
      if is_no_rows e
      then status not_found
          "no whatsapp gates that are enabled and have coresponding binded contact"
      else status internal "collecting whatsapp business acoount record"

  abbrev pub found :
      Result (Result (List WhatsAppBusinessAccount)) × W → Result WhatsAppBusinessAccount × W
  found (err e, w) = (err (status internal "executing resolve whatsapp business account query"), w)
  found (ok (err e), w) = (err (row_error e), w)
  found (ok (ok []), w) = (err (row_error err_no_rows), w)
  found (ok (ok (account ∷ accounts)), w) = (ok account, w)

  -- messagingRepository.Resolve
  unfoldable pub resolve : String → Io W WhatsAppBusinessAccount
  resolve gate_id w = found (api.query (extract_gate_id gate_id) w)

  -- a request to the API, with a body
  abbrev pub messages_request : MessageManager → String → ApiRequest
  messages_request manager body =
      set_body body
        (new_api_request manager.requester (String.◌++◌ manager.phone_number_id "/messages") "POST")

  abbrev pub answered_with :
      String → MessageSendResponse → Option MessageSendError → Result MessageSendResponse
  answered_with id response none = ok response
  answered_with id response (some e) = err (wrapped id (to_grpc_error e))

  abbrev pub read_response : String → Result MessageSendResponse → Result MessageSendResponse
  read_response id (err e) = err (status internal "unmarshaling response")
  read_response id (ok response) = answered_with id response response.error

  abbrev pub post : String → MessageManager → Result String → Io W MessageSendResponse
  post id manager (err e) w = (err (status internal "converting message to json"), w)
  post id manager (ok body) w =
      follow (execute api.http (messages_request manager body) w)
        (λ raw w1. (read_response id (api.json.send_response raw), w1))

  -- MessageManager.Send
  unfoldable pub send_message : MessageManager → BaseMessage → String → Io W MessageSendResponse
  send_message manager message phone_number = post "message.manager.send" manager (
      to_json api.json.marshal message
        (record { reply_to_message = ""; sending_phone_number = phone_number }))

  -- MessageManager.Reply
  pub reply : MessageManager → BaseMessage → String → String → Io W MessageSendResponse
  reply manager message phone_number reply_to = post "message.manager.reply" manager (
      to_json api.json.marshal message
        (record { reply_to_message = reply_to; sending_phone_number = phone_number }))

  status_read : Option MessageSendError → Result (Unit {0})
  status_read none = ok tt
  status_read (some e) = err (wrapped "message.manager.read_message" (to_grpc_error e))

  read_status : Result StatusResponse → Result (Unit {0})
  read_status (err e) = err (status internal "unmarshaling status response")
  read_status (ok response) = status_read response.error

  read_with : MessageManager → Result String → Io W (Unit {0})
  read_with manager (err e) w = (err (status internal "marshaling read message body"), w)
  read_with manager (ok body) w =
      let (raw, w1) = execute api.http (messages_request manager body) w in
      follow (wrap "message.manager.read_message" raw, w1)
        (λ text w2. (read_status (api.json.status_response text), w2))

  -- readMessage, which ReadMessageOnly and ReadMessageWithTyping call
  pub read_message : MessageManager → String → Bool → Io W (Unit {0})
  read_message manager message_id show_typing =
      read_with manager (api.json.read_body message_id show_typing)

  pub record PreparationInfo : Type 0 where
    pub manager : MessageManager
    pub external_phone_number : String

  abbrev pub identity : Message → WhatsAppBusinessAccount → List (String × String)
  identity message account =
      ("x-webitel-type", "provider")
      ∷ (
        "x-webitel-provider",
        String.◌++◌ (decimal_ℤ message.domain_id) (String.◌++◌ "." account.contact.sub),
      )
      ∷ []

  abbrev pub located :
      Message → WhatsAppBusinessAccount → Result MessageManager → Io W PreparationInfo
  located message account (err e) w = (err e, w)
  located message account (ok manager) w =
      follow (api.locate (identity message account) message.to.sub message.domain_id w)
        (λ sub w1. (ok (record { manager = manager; external_phone_number = sub }), w1))

  -- prepareOutboundMessageInfo
  unfoldable pub prepare_outbound_message_info : Message → Io W PreparationInfo
  prepare_outbound_message_info message w = follow (resolve message.gate_id w) (λ account w1.
      located message account (prepare_message_manager (api.now w1) api.decrypt account) w1)

  abbrev pub send_made : Result BaseMessage → PreparationInfo → Io W MessageResponse
  send_made (err e) info w = (err e, w)
  send_made (ok message) info w =
      follow (send_message info.manager message info.external_phone_number w)
        (λ response w1. (ok (record { id = first_id response.messages }), w1))

  -- SendText, SendImage and SendDocument. The test of `response.Error` after Send cannot succeed: Send
  -- has returned that error.
  unfoldable pub send : (Message → Result BaseMessage) → Message → Io W MessageResponse
  send make req w = follow (prepare_outbound_message_info req w) (send_made (make req))

  unfoldable pub send_text : Message → Io W MessageResponse
  send_text = send text_of

  unfoldable pub send_image : Message → Io W MessageResponse
  send_image = send image_of

  unfoldable pub send_document : Message → Io W MessageResponse
  send_document = send document_of
