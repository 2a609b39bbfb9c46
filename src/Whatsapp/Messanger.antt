-- ===== src/Whatsapp/Messanger.antt =====
-- The messenger that the WhatsApp webhook sends through: `decoratedCoreMessanger` of
-- internal/whatsapp/webhook/webhook.core.messanger.go. The gateway and the messenger that it decorates
-- are the parameter `core`; a call takes the outgoing metadata of its context.
pub mod Registered
pub mod Contacts
use Prim.Native.String
use im_providers_service.Prelude.{
  String, ℕ, Bool, Option, List, [], ◌∷◌, ◌==◌, string_eq, if◌then◌else◌,
}
use im_providers_service.Prelude.Int.{ℤ, is_nonpos, to_int32}
use im_providers_service.Prelude.Text.{decimal_ℤ}
use im_providers_service.Prelude.Io.{Io, follow, ◌>>=◌}
use im_providers_service.Prelude.Failure.{
  Failure, Result, ok, err, status, invalid_argument, internal, code_of, is_already_exists,
}
use im_providers_service.Core.Message.{Peer, SendTextRequest, SendImageRequest, SendDocumentRequest}
use im_providers_service.Whatsapp.Components.Contacts.{Metadata}

pub record SendLocationRequest : Type 0 where
  pub from : Peer
  pub to : Peer
  pub latitude : ℕ
  pub longitude : ℕ
  pub name : Option String
  pub address : Option String
  pub external_id : String
  pub domain_id : ℤ

pub record SendContactRequest : Type 0 where
  pub from : Peer
  pub to : Peer
  pub name : Option String
  pub email : Option String
  pub phone_number : Option String
  pub metadata : List (String × Metadata)
  pub external_id : String
  pub domain_id : ℤ

-- `gateway.CreateContactRequest`; its metadata is the empty map.
pub record CreateContactRequest : Type 0 where
  pub iss_id : String
  pub type : String
  pub name : String
  pub username : String
  pub subject : String
  pub domain_id : ℤ
  pub is_bot : Bool

-- `metadata.MD`
abbrev pub Headers : Type 0
Headers = List (String × String)

-- The responses are not read.
pub record Core (W : Type 0) : Type 0 where
  pub create : Headers → CreateContactRequest → Io W (Unit {0})
  -- an issuer, a subject and a via
  pub create_via : Headers → String → String → String → Io W (Unit {0})
  pub send_text : Headers → SendTextRequest → Io W (Unit {0})
  pub send_image : Headers → SendImageRequest → Io W (Unit {0})
  pub send_document : Headers → SendDocumentRequest → Io W (Unit {0})
  pub send_location : Headers → SendLocationRequest → Io W (Unit {0})
  pub send_contact : Headers → SendContactRequest → Io W (Unit {0})

-- prepareOutCallMetadata
unfoldable pub out_call_metadata : ℤ → String → Result Headers
out_call_metadata dc sub =
    if is_nonpos dc
    then err (status invalid_argument "domain id is required")
    else if sub == ""
    then err (status invalid_argument "sub is required")
    else ok (
        ("x-webitel-type", "provider")
        ∷ ("x-webitel-provider", String.◌++◌ (decimal_ℤ dc) (String.◌++◌ "." sub))
        ∷ [])

abbrev pub contact_request : Peer → ℤ → CreateContactRequest
contact_request from dc = record {
  iss_id = from.iss;
  type = "whatsapp";
  name = from.name;
  username = from.name;
  subject = from.sub;
  domain_id = to_int32 dc;
  is_bot = Bool.false;
}

-- what is made of the gateway's answers
abbrev pub created : Result (Unit {0}) → Result (Unit {0})
created (ok _) = ok tt
created (err e) =
    if is_already_exists (code_of e)
    then ok tt
    else err (status internal "executing create contact gateway request")

abbrev pub via_created : Result (Unit {0}) → Result (Unit {0})
via_created (ok _) = ok tt
via_created (err e) =
    if is_already_exists (code_of e)
    then ok tt
    else err (status (code_of e) "executing create via gateway request")

module _ {W : Type 0} where
  -- a pure step of a method
  abbrev pub lift : {A : Type 0} → Result A → Io W A
  lift r w = (r, w)

  abbrev pub answered :
      (Result (Unit {0}) → Result (Unit {0})) → Result (Unit {0}) × W → Result (Unit {0}) × W
  answered read (r, w) = (read r, w)

module _ {W : Type 0} (core : Core W) where
  unfoldable pub resolve_internal_contact_identity : Peer → Peer → ℤ → Io W (Unit {0})
  resolve_internal_contact_identity to from dc w =
      follow (lift (out_call_metadata dc to.sub) w) (λ headers w0.
        follow (answered created (core.create headers (contact_request from dc) w0))
          (λ _ w1. answered via_created (core.create_via headers from.iss from.sub to.id w1)))

  -- prepareOutgoingSendCoreRequest. The headers that prepareOutCallMetadata makes are in the context
  -- that NewOutgoingContext then gives other headers.
  unfoldable pub prepare_outgoing_send_core_request : Peer → Peer → ℤ → Io W Headers
  prepare_outgoing_send_core_request from to dc =
      resolve_internal_contact_identity to from dc >>= λ _.
      lift (out_call_metadata dc from.sub) >>= λ _. lift (ok (("x-webitel-via", to.id) ∷ []))

  -- The five methods: all prepare the context the same, and pass the request on.
  unfoldable pub send_through : Peer → Peer → ℤ → (Headers → Io W (Unit {0})) → Io W (Unit {0})
  send_through from to dc send = prepare_outgoing_send_core_request from to dc >>= send

  unfoldable pub send_text : SendTextRequest → Io W (Unit {0})
  send_text req = send_through req.from req.to req.domain_id (λ h. core.send_text h req)

  unfoldable pub send_image : SendImageRequest → Io W (Unit {0})
  send_image req = send_through req.from req.to req.domain_id (λ h. core.send_image h req)

  unfoldable pub send_document : SendDocumentRequest → Io W (Unit {0})
  send_document req = send_through req.from req.to req.domain_id (λ h. core.send_document h req)

  unfoldable pub send_location : SendLocationRequest → Io W (Unit {0})
  send_location req = send_through req.from req.to req.domain_id (λ h. core.send_location h req)

  unfoldable pub send_contact : SendContactRequest → Io W (Unit {0})
  send_contact req = send_through req.from req.to req.domain_id (λ h. core.send_contact h req)
