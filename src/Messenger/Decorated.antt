-- ===== src/Messenger/Decorated.antt =====
-- The messenger of the WhatsApp webhook (internal/whatsapp/webhook/webhook.core.messanger.go) round the
-- wrapped messenger of internal/core/service, as webhook.wire.go and internal/core/module.go put them
-- together.
use im_providers_service.Prelude.{String, ◌≡◌, refl, ◌∙◌, ◌⊎◌, inl, inr, Option, none, [], ◌∷◌}
use im_providers_service.Prelude.Int.{ℤ}
use im_providers_service.Prelude.Dict.{lookup}
use im_providers_service.Prelude.Io.{Io}
use im_providers_service.Prelude.Failure.{Result, ok, err}
use im_providers_service.Core.Message.{Peer}
use im_providers_service.Whatsapp.Messanger
use im_providers_service.Whatsapp.Messanger.{
  Core, Headers, CreateContactRequest, send_through, out_call_metadata, contact_request, created,
  via_created, answered, lift, prepare_outgoing_send_core_request,
  resolve_internal_contact_identity,
}
use im_providers_service.Whatsapp.Messanger.Registered.{Registered}
use im_providers_service.Whatsapp.Messanger.Contacts.{registered-sends}
use im_providers_service.Messenger.{Gateway, Context, SendResponse}
use im_providers_service.Messenger.Provider.{
  Request, text, image, document, location, contact, recipient, provider, named, dispatch, Calls,
  Refuses, dispatch-Calls,
}

abbrev sender : Request → Peer
sender (text r) = r.from
sender (image r) = r.from
sender (document r) = r.from
sender (location r) = r.from
sender (contact r) = r.from

abbrev domain : Request → ℤ
domain (text r) = r.domain_id
domain (image r) = r.domain_id
domain (document r) = r.domain_id
domain (location r) = r.domain_id
domain (contact r) = r.domain_id

-- The context of a webhook's request with metadata: nothing on the way to here gives it an identity.
abbrev pub with_headers : Headers → Context
with_headers headers = record { identity = none; headers = headers }

module _ {W : Type 0} where
  abbrev pub forget : Result SendResponse × W → Result (Unit {0}) × W
  forget (ok response, w) = (ok tt, w)
  forget (err e, w) = (err e, w)

module _ {W S : Type 0} (gateway : Gateway W S)
    (create : Headers → CreateContactRequest → Io W (Unit {0}))
    (create_via : Headers → String → String → String → Io W (Unit {0})) where
  abbrev passed : Request → Headers → Io W (Unit {0})
  passed req headers w = forget (dispatch gateway (with_headers headers) req w)

  abbrev pub core_messenger : Core W
  core_messenger = record {
    create = create;
    create_via = create_via;
    send_text = λ h r. passed (text r) h;
    send_image = λ h r. passed (image r) h;
    send_document = λ h r. passed (document r) h;
    send_location = λ h r. passed (location r) h;
    send_contact = λ h r. passed (contact r) h;
  }

  -- The methods of the decorated messenger.
  abbrev pub through : Request → Io W (Unit {0})
  through (text r) = Messanger.send_text core_messenger r
  through (image r) = Messanger.send_image core_messenger r
  through (document r) = Messanger.send_document core_messenger r
  through (location r) = Messanger.send_location core_messenger r
  through (contact r) = Messanger.send_contact core_messenger r

  through-send :
      (req : Request) (w : W)
      → through req w
        ≡ send_through core_messenger (sender req) (recipient req) (domain req) (passed req) w
  unfolding Messanger.send_text Messanger.send_image Messanger.send_document Messanger.send_location
      Messanger.send_contact
  through-send (text r) w = refl
  through-send (image r) w = refl
  through-send (document r) w = refl
  through-send (location r) w = refl
  through-send (contact r) w = refl

  abbrev pub via_of : Request → Context
  via_of req = with_headers (("x-webitel-via", (recipient req).id) ∷ [])

  -- Who the gateway is told that the message is of.
  abbrev pub told : Request → Option String
  told (text r) = named r.domain_id r.from
  told (image r) = named r.domain_id r.from
  told (document r) = named r.domain_id r.from
  told (location r) = none
  told (contact r) = none

  provider-told : (req : Request) → provider (via_of req) req ≡ told req
  unfolding lookup
  provider-told (text r) = refl
  provider-told (image r) = refl
  provider-told (document r) = refl
  provider-told (location r) = refl
  provider-told (contact r) = refl

  -- One call for the request, made as `told`, or none where a contact's metadata are no struct.
  abbrev pub Reaches : Request → W → Type 0
  Reaches req w =
      ((calls : Calls gateway (via_of req) req w) × (lookup "x-webitel-provider" calls.sent
          ≡ told req))
      ⊎ Refuses gateway (via_of req) req w

  -- A request of the WhatsApp webhook, once its sender's contact and via are made or there, does what the
  -- wrapped messenger does with the via as its metadata, which is one call of the gateway: as the sender
  -- in its domain for a text, an image or a document, and without any provider for a location or a
  -- contact, unless a contact's metadata are no struct.
  pub through-Reaches :
      (req : Request) (w w2 : W)
      → Registered core_messenger (sender req) (recipient req) (domain req) w w2
      → (through req w ≡ forget (dispatch gateway (via_of req) req w2)) × Reaches req w2
  through-Reaches req w w2 reg = (
    through-send req w
        ∙ registered-sends core_messenger (sender req) (recipient req) (domain req) w2 (passed req)
            w reg,
    elim (dispatch-Calls gateway (via_of req) req w2) [
      | inl calls ↦ inl (calls, calls.stamped.provider ∙ provider-told req)
      | inr refused ↦ inr refused
    ],
  )
