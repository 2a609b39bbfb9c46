-- ===== src/Facebook/Model.antt =====
-- internal/facebook/types.go and internal/facebook/model: webhook payloads, profiles, gates and apps.
use im_providers_service.Prelude.{String, Bool, Option, List, map, concat}
use im_providers_service.Prelude.Int.{ℤ}
use im_providers_service.Core.Message.{Peer}
use im_providers_service.Core.Gate.{GateStatus}

pub record AttachmentPayload : Type 0 where
  pub url : String
  pub title : String
  pub name : String

pub record Attachment : Type 0 where
  pub type : String
  pub payload : AttachmentPayload

pub record InboundMessage : Type 0 where
  pub mid : String
  pub text : String
  pub attachments : List Attachment
  pub is_echo : Bool

pub record Postback : Type 0 where
  pub mid : String
  pub title : String
  pub payload : String

-- `Sender` and `Recipient` by their ids.
pub record Messaging : Type 0 where
  pub sender : String
  pub recipient : String
  pub timestamp : ℤ
  pub message : Option InboundMessage
  pub postback : Option Postback

pub record Entry : Type 0 where
  pub id : String
  pub time : ℤ
  pub messaging : List Messaging

pub record WebhookRequest : Type 0 where
  pub object : String
  pub entry : List Entry

-- `AllMessages`
unfoldable pub all_messages : WebhookRequest → List Messaging
all_messages r = concat (map (λ (e : Entry). e.messaging) r.entry)

pub record UserProfile : Type 0 where
  pub id : String
  pub first_name : String
  pub last_name : String
  pub profile_pic : String
  pub locale : String
  pub timezone : ℤ

-- `sharedmodel.ExternalUser`
pub record ExternalUser : Type 0 where
  pub id : String
  pub first_name : String
  pub last_name : String

pub record FacebookGate : Type 0 where
  pub id : String
  pub domain_id : ℤ
  pub peer : Peer
  pub name : String
  pub meta_app_id : String
  pub page_id : String
  pub page_name : String
  pub page_token : String
  pub enabled : Bool
  pub status : GateStatus

pub record MetaApp : Type 0 where
  pub id : String
  pub uri : String
  pub name : String
  pub app_id : String
  pub app_secret : String
  pub verify_token : String
  pub oauth_redirect_uri : String
  pub scopes : List String
