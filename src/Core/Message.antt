-- ===== src/Core/Message.antt =====
-- internal/core/model/message.go and peer.go: messages, attachments, keyboards, and their peers. The
-- fields that no modelled code reads or writes (message ids, threads, times, metadata) are left out.
use im_providers_service.Prelude.{String, Bool, Option, List}
use im_providers_service.Prelude.Int.{ℤ}

pub record Peer : Type 0 where
  pub sub : String
  pub iss : String
  pub via : Option String
  pub name : String
  -- empty for the nil UUID
  pub id : String

pub record Image : Type 0 where
  pub id : String
  pub file_name : String
  pub mime_type : String
  pub url : String
  pub size : ℤ

pub record Document : Type 0 where
  pub id : String
  pub file_name : String
  pub mime_type : String
  pub url : String
  pub size : ℤ

pub record KeyboardButton : Type 0 where
  pub id : String
  pub label : String
  -- the URL, the callback's data, the request's action
  pub url : Option String
  pub callback : Option String
  pub request : Option String

pub record KeyboardRow : Type 0 where
  pub buttons : List KeyboardButton

pub record KeyboardRowWithSection : Type 0 where
  pub section : String
  pub buttons : List KeyboardButton

pub record KeyboardMarkup : Type 0 where
  pub rows : List KeyboardRow

pub record KeyboardListReply : Type 0 where
  pub main_button_title : String
  pub sections : List KeyboardRowWithSection

pub record Interactive : Type 0 where
  pub single_use : Bool
  pub markup : Option KeyboardMarkup
  pub list_reply : Option KeyboardListReply

pub record Message : Type 0 where
  pub gate_id : String
  pub domain_id : ℤ
  pub to : Peer
  pub text : String
  pub documents : List Document
  pub images : List Image
  pub interactive : Option Interactive

pub record MessageResponse : Type 0 where
  pub id : String

-- A peer of which only the subject is known.
abbrev pub peer_of_sub : String → Peer
peer_of_sub sub = record { sub = sub; iss = ""; via = Option.none; name = ""; id = "" }

-- `SendTextRequest`, `SendImageRequest` and `SendDocumentRequest` of inbound messages.
pub record SendTextRequest : Type 0 where
  pub domain_id : ℤ
  pub from : Peer
  pub to : Peer
  pub body : String

pub record SendImageRequest : Type 0 where
  pub domain_id : ℤ
  pub from : Peer
  pub to : Peer
  pub body : String
  pub images : List Image

pub record SendDocumentRequest : Type 0 where
  pub domain_id : ℤ
  pub from : Peer
  pub to : Peer
  pub body : String
  pub documents : List Document
