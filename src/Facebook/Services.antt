-- ===== src/Facebook/Services.antt =====
-- What the inbound side of the Facebook provider (internal/facebook) calls: the Graph API, the user
-- cache, the gateway, the messenger and the media service, as effects on a world `W`. A function that
-- leaves the world as it was has called nothing.
use Prim.Native.String
use im_providers_service.Prelude.{String, ℕ, Bool, none, some, List, string_eq}
use im_providers_service.Prelude.Int.{ℤ}
use im_providers_service.Prelude.Text.{decimal_ℤ}
use im_providers_service.Prelude.Io.{Io}
use im_providers_service.Prelude.Failure.{Result, ok}
use im_providers_service.Core.Message.{Peer, SendTextRequest, SendImageRequest, SendDocumentRequest}
use im_providers_service.Facebook.Model.{UserProfile, ExternalUser, FacebookGate}

-- `gatewayv1.Contact`, as far as it is read.
pub record Contact : Type 0 where
  pub sub : String
  pub iss : String

pub record CreateContactRequest : Type 0 where
  pub iss_id : String
  pub type : String
  pub name : String
  pub username : String
  pub subject : String

-- The answer to a media download: is the status 200, Content-Type, Content-Length, and the body.
pub record Download : Type 0 where
  pub is_ok : Bool
  pub content_type : String
  pub content_length : ℤ
  pub body : List ℕ

pub record UploadRequest : Type 0 where
  pub domain_id : ℤ
  pub name : String
  pub mime_type : String

-- The Graph API, the user cache, the gateway, the messenger and the media service. `uploaded` and the
-- sends answer by ids that the provider does not look at further. The gateway's calls carry the
-- identity of their caller.
pub record Services (W : Type 0) : Type 0 where
  pub now : W → ℕ
  pub get_user_profile : String → String → Io W UserProfile
  pub is_known : ExternalUser → Io W Bool
  pub mark_known : ExternalUser → Io W (Unit {0})
  pub set_locale : String → String → String → Io W (Unit {0})
  pub create_contact : String → CreateContactRequest → Io W Contact
  pub create_via : String → String → String → String → Io W (Unit {0})
  pub send_text : SendTextRequest → Io W (Unit {0})
  pub send_image : SendImageRequest → Io W (Unit {0})
  pub send_document : SendDocumentRequest → Io W (Unit {0})
  pub download : String → String → Io W Download
  pub upload_file : UploadRequest → List ℕ → Io W String

-- `facebookProvider.Type`
abbrev pub provider_type : String
provider_type = "facebook"

-- The identity that `withGatewayIdentity` attaches.
unfoldable pub gateway_identity : FacebookGate → String
gateway_identity gate = String.◌++◌ (decimal_ℤ gate.domain_id) (String.◌++◌ "." gate.peer.sub)

-- `peerPair`
pub record PeerPair : Type 0 where
  pub from : Peer
  pub to : Peer

abbrev pub peers_of : FacebookGate → String → PeerPair
peers_of gate psid = record {
  from = record { sub = psid; iss = gate.peer.iss; via = none; name = ""; id = "" };
  to = record { sub = gate.peer.sub; iss = gate.peer.iss; via = some gate.id; name = ""; id = "" };
}

-- An error that is logged and goes no further.
abbrev pub logged : {A W : Type 0} → Result A × W → Result (Unit {0}) × W
logged (r, w) = (ok tt, w)
