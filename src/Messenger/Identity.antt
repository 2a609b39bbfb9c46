-- ===== src/Messenger/Identity.antt =====
-- The wrapper of internal/core/service/message_auth.go, with which the messenger is given out.
use Prim.Native.String
use im_providers_service.Prelude.{String, some}
use im_providers_service.Prelude.Int.{ℤ}
use im_providers_service.Prelude.Text.{decimal_ℤ}
use im_providers_service.Prelude.Io.{Io}
use im_providers_service.Core.Message.{SendTextRequest, SendImageRequest, SendDocumentRequest}
use im_providers_service.Whatsapp.Messanger.{SendLocationRequest, SendContactRequest}
use im_providers_service.Messenger
use im_providers_service.Messenger.{Gateway, Context, SendResponse, SendInteractiveCallbackRequest}

abbrev pub with_identity : Context → ℤ → String → Context
with_identity ctx dc sub = record ctx {
  identity = some (String.◌++◌ (decimal_ℤ dc) (String.◌++◌ "." sub));
}

-- messengerAuthMiddleware, which has no SendLocation and SendContact of its own.
module _ {W S : Type 0} (gateway : Gateway W S) where
  unfoldable pub send_text : Context → SendTextRequest → Io W SendResponse
  send_text ctx req = Messenger.send_text gateway (with_identity ctx req.domain_id req.from.sub) req

  unfoldable pub send_image : Context → SendImageRequest → Io W SendResponse
  send_image ctx req =
      Messenger.send_image gateway (with_identity ctx req.domain_id req.from.sub) req

  unfoldable pub send_document : Context → SendDocumentRequest → Io W SendResponse
  send_document ctx req =
      Messenger.send_document gateway (with_identity ctx req.domain_id req.from.sub) req

  unfoldable pub send_location : Context → SendLocationRequest → Io W SendResponse
  send_location = Messenger.send_location gateway

  unfoldable pub send_contact : Context → SendContactRequest → Io W SendResponse
  send_contact = Messenger.send_contact gateway

  unfoldable pub send_interactive_callback :
      Context → SendInteractiveCallbackRequest → Io W (Unit {0})
  send_interactive_callback ctx req =
      Messenger.send_interactive_callback gateway (with_identity ctx req.domain_id req.from.sub) req
