-- ===== src/Facebook/Inbound.antt =====
-- `processMessage` and the routing of internal/facebook/webhook.go, for one messaging event of a gate.
-- Logging is left out, and the texts of errors are without the ids in them.
pub mod Addressing
pub mod Contacts
mod Tests
use Prim.Native.String
use im_providers_service.Prelude.{
  String, ℕ, Bool, true, false, ◌||◌, Option, none, some, List, [], ◌∷◌, ◌==◌, string_eq,
  if◌then◌else◌,
}
use im_providers_service.Prelude.Int.{ℤ, pos, is_nonpos}
use im_providers_service.Prelude.Text.{decimal, decimal_ℤ}
use im_providers_service.Prelude.Io.{Io, return, fail, follow, ◌>>=◌, ◌>>◌}
use im_providers_service.Prelude.Failure.{
  Failure, Result, ok, err, wrap, wrapped, plain, status, already_exists,
}
use im_providers_service.Core.Message.{
  Peer, Image, Document, SendTextRequest, SendImageRequest, SendDocumentRequest,
}
use im_providers_service.Facebook.Model.{
  AttachmentPayload, Attachment, InboundMessage, Postback, Messaging, UserProfile, ExternalUser,
  FacebookGate,
}
use im_providers_service.Facebook.Services.{
  Contact, CreateContactRequest, Download, UploadRequest, Services, provider_type, gateway_identity,
  PeerPair, peers_of, logged,
}
use im_providers_service.Facebook.Contacts.{fetch_and_sync}
use im_providers_service.Facebook.Media.{handle_attachments}

abbrev pub is_echo : Option InboundMessage → Bool
is_echo none = false
is_echo (some msg) = msg.is_echo

abbrev pub is_empty : Option InboundMessage → Option Postback → Bool
is_empty none none = true
is_empty _ _ = false

module _ {W : Type 0} (api : Services W) where
  abbrev pub text_request : FacebookGate → PeerPair → String → SendTextRequest
  text_request gate peers body = record {
    domain_id = gate.domain_id;
    from = peers.from;
    to = peers.to;
    body = body;
  }

  unfoldable pub route_text : FacebookGate → PeerPair → String → W → W
  route_text gate peers text w =
      if text == "" then w else (api.send_text (text_request gate peers text) w).1

  unfoldable pub route_message : FacebookGate → PeerPair → InboundMessage → W → W
  route_message gate peers msg w =
      (handle_attachments api gate peers msg.attachments (route_text gate peers msg.text w)).1

  unfoldable pub route_postback : FacebookGate → PeerPair → Postback → W → W
  route_postback gate peers pb w = (api.send_text (text_request gate peers pb.payload) w).1

  abbrev pub route_any_message : FacebookGate → PeerPair → Option InboundMessage → W → W
  route_any_message gate peers none w = w
  route_any_message gate peers (some msg) w = route_message gate peers msg w

  abbrev pub route_any_postback : FacebookGate → PeerPair → Option Postback → W → W
  route_any_postback gate peers none w = w
  route_any_postback gate peers (some pb) w = route_postback gate peers pb w

  -- The second round that an event with a message makes.
  abbrev pub sync_again : FacebookGate → String → Option InboundMessage → Io W (Unit {0})
  sync_again gate psid none w = (ok tt, w)
  sync_again gate psid (some msg) w = (fetch_and_sync api gate psid >>= λ c. return tt) w

  unfoldable pub route_all : FacebookGate → Messaging → Io W (Unit {0})
  route_all gate msg w =
      let peers = peers_of gate msg.sender in
      (
        ok tt,
        route_any_postback gate peers msg.postback (route_any_message gate peers msg.message w),
      )

  unfoldable pub process_message : FacebookGate → Messaging → Io W (Unit {0})
  process_message gate msg w =
      if msg.sender == "" || is_empty msg.message msg.postback || is_echo msg.message
      then (ok tt, w)
      else (fetch_and_sync api gate msg.sender >>= λ c.
            sync_again gate msg.sender msg.message >>= λ _. route_all gate msg)
          w
