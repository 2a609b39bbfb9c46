-- ===== src/Messenger/Provider.antt =====
-- What the wrapped messenger sends to the gateway, and in whose name.
use Prim.Native.String
use im_providers_service.Prelude.{
  String, ◌≡◌, refl, ◌⊎◌, inl, inr, Option, none, some, List, [], ◌∷◌, map, ap, string_eq,
}
use im_providers_service.Prelude.Int.{ℤ}
use im_providers_service.Prelude.Text.{decimal_ℤ}
use im_providers_service.Prelude.Io.{Io}
use im_providers_service.Prelude.Failure.{
  Failure, Result, ok, err, wrapped, status, invalid_argument,
}
use im_providers_service.Core.Message.{
  Peer, Image, Document, SendTextRequest, SendImageRequest, SendDocumentRequest,
}
use im_providers_service.Whatsapp.Messanger.{Headers, SendLocationRequest, SendContactRequest}
use im_providers_service.Messenger
use im_providers_service.Messenger.{
  Gateway, Context, SendResponse, PeerIdentity, TextCall, DocumentCall, LocationCall, ContactCall,
  DocumentInput, outgoing, peer_to_pb, image_input, document_input, responded,
}
use im_providers_service.Messenger.Stamp.{name_of, IsStamped, outgoing-IsStamped}
use im_providers_service.Messenger.Identity.{
  send_text, send_image, send_document, send_location, send_contact, with_identity,
}

-- The five requests for a message.
pub data Request : Type 0 where
  text : SendTextRequest → Request
  image : SendImageRequest → Request
  document : SendDocumentRequest → Request
  location : SendLocationRequest → Request
  contact : SendContactRequest → Request

abbrev pub recipient : Request → Peer
recipient (text r) = r.to
recipient (image r) = r.to
recipient (document r) = r.to
recipient (location r) = r.to
recipient (contact r) = r.to

-- The provider that a call is made as: the sender in its domain for texts and files, and for the others
-- whatever the caller's context gives.
abbrev pub named : ℤ → Peer → Option String
named dc from = some (String.◌++◌ (decimal_ℤ dc) (String.◌++◌ "." from.sub))

abbrev of_context : Context → Option String
of_context ctx = name_of ctx.identity ctx.headers

abbrev pub provider : Context → Request → Option String
provider ctx (text r) = named r.domain_id r.from
provider ctx (image r) = named r.domain_id r.from
provider ctx (document r) = named r.domain_id r.from
provider ctx (location r) = of_context ctx
provider ctx (contact r) = of_context ctx

-- A file, without its size: the id, the address, the name and the type.
abbrev File : Type 0
File = String × String × String × String

abbrev of_input : DocumentInput → File
of_input f = (f.id, f.url, f.file_name, f.mime_type)

abbrev of_image : Image → File
of_image f = (f.id, f.url, f.file_name, f.mime_type)

abbrev of_document : Document → File
of_document f = (f.id, f.url, f.file_name, f.mime_type)

-- The files of a request and of a call, in their order.
abbrev pub files : Request → List File
files (image r) = map of_image r.images
files (document r) = map of_document r.documents
files _ = []

images-same : (l : List Image) → map of_input (map image_input l) ≡ map of_image l
images-same [] = refl
images-same (f ∷ l) = ap (λ rest. of_image f ∷ rest) (images-same l)

documents-same : (l : List Document) → map of_input (map document_input l) ≡ map of_document l
documents-same [] = refl
documents-same (f ∷ l) = ap (λ rest. of_document f ∷ rest) (documents-same l)

-- The body of a text and of files.
abbrev pub body : Request → Option String
body (text r) = some r.body
body (image r) = some r.body
body (document r) = some r.body
body _ = none

abbrev failing : Request → Failure → Failure
failing (location r) = wrapped "service.message.send_location"
failing (contact r) = wrapped "service.message.send_contact"
failing _ = λ e. e

-- One call of the gateway.
pub data Call (S : Type 0) : Type 0 where
  of_text : TextCall → Call S
  of_files : DocumentCall → Call S
  of_location : LocationCall → Call S
  of_contact : ContactCall S → Call S

module _ {S : Type 0} where
  abbrev pub called_to : Call S → PeerIdentity
  called_to (of_text c) = c.to
  called_to (of_files c) = c.to
  called_to (of_location c) = c.to
  called_to (of_contact c) = c.to

  abbrev pub called_files : Call S → List File
  called_files (of_files c) = map of_input c.documents
  called_files _ = []

  abbrev pub called_body : Call S → Option String
  called_body (of_text c) = some c.body
  called_body (of_files c) = some c.body
  called_body _ = none

module _ {W S : Type 0} (gateway : Gateway W S) where
  abbrev pub perform : Call S → Headers → Io W String
  perform (of_text c) h = gateway.send_text h c
  perform (of_files c) h = gateway.send_document h c
  perform (of_location c) h = gateway.send_location h c
  perform (of_contact c) h = gateway.send_contact h c

  abbrev pub dispatch : Context → Request → Io W SendResponse
  dispatch ctx (text r) = send_text gateway ctx r
  dispatch ctx (image r) = send_image gateway ctx r
  dispatch ctx (document r) = send_document gateway ctx r
  dispatch ctx (location r) = send_location gateway ctx r
  dispatch ctx (contact r) = send_contact gateway ctx r

  -- A method makes one call, with the peer, the body and the files of the request.
  pub record Calls (ctx : Context) (req : Request) (w : W) : Type 0 where
    pub sent : Headers
    pub call : Call S
    pub stamped : IsStamped ctx.headers (provider ctx req) sent
    pub same_peer : called_to call ≡ peer_to_pb (recipient req)
    pub same_body : called_body call ≡ body req
    pub same_files : called_files call ≡ files req
    pub only :
        dispatch ctx req w ≡ responded gateway (recipient req) (failing req) (perform call sent w)

  -- The contact's metadata are no struct, and nothing is called.
  abbrev pub Refuses : Context → Request → W → Type 0
  Refuses ctx req w =
      (r : SendContactRequest) × (e : Failure) × (req ≡ contact r)
      × (gateway.new_struct r.metadata ≡ err e)
      × (dispatch ctx req w
          ≡ (err (status invalid_argument "converting model metadata to structb"), w))

  contact-Calls :
      (ctx : Context) (r : SendContactRequest) (w : W)
      → (metadata : Result S) → gateway.new_struct r.metadata ≡ metadata
      → Calls ctx (contact r) w ⊎ Refuses ctx (contact r) w
  unfolding send_contact Messenger.send_contact
  contact-Calls ctx r w (err e) q = inr (r, e, refl, q, rw q refl)
  contact-Calls ctx r w (ok metadata) q = inl (record {
    sent = outgoing ctx;
    call = of_contact (record {
      to = peer_to_pb r.to;
      name = r.name;
      email = r.email;
      phone_number = r.phone_number;
      metadata = metadata;
      send_id = "";
    });
    stamped = outgoing-IsStamped ctx.identity ctx.headers;
    same_peer = refl;
    same_body = refl;
    same_files = refl;
    only = rw q refl;
  })

  -- For any context and request: the messenger calls the gateway once, for the peer, with the body and
  -- with the files of the request in their order, images too as documents, and answers with what that
  -- call answers. The call is made as the sender in its domain, whatever the context holds, for texts
  -- and files, and for locations and contacts only as the context has it; the rest of the context's
  -- metadata is kept. A contact whose metadata are no struct calls nothing and is an error.
  pub dispatch-Calls : (ctx : Context) (req : Request) (w : W) → Calls ctx req w ⊎ Refuses ctx req w
  unfolding send_text send_image send_document send_location Messenger.send_text
      Messenger.send_image Messenger.send_document Messenger.send_location
  dispatch-Calls ctx (text r) w = inl (record {
    sent = outgoing (with_identity ctx r.domain_id r.from.sub);
    call = of_text (record { to = peer_to_pb r.to; body = r.body });
    stamped = outgoing-IsStamped (named r.domain_id r.from) ctx.headers;
    same_peer = refl;
    same_body = refl;
    same_files = refl;
    only = refl;
  })
  dispatch-Calls ctx (image r) w = inl (record {
    sent = outgoing (with_identity ctx r.domain_id r.from.sub);
    call =
        of_files
          (record { to = peer_to_pb r.to; body = r.body; documents = map image_input r.images });
    stamped = outgoing-IsStamped (named r.domain_id r.from) ctx.headers;
    same_peer = refl;
    same_body = refl;
    same_files = images-same r.images;
    only = refl;
  })
  dispatch-Calls ctx (document r) w = inl (record {
    sent = outgoing (with_identity ctx r.domain_id r.from.sub);
    call = of_files (record {
      to = peer_to_pb r.to;
      body = r.body;
      documents = map document_input r.documents;
    });
    stamped = outgoing-IsStamped (named r.domain_id r.from) ctx.headers;
    same_peer = refl;
    same_body = refl;
    same_files = documents-same r.documents;
    only = refl;
  })
  dispatch-Calls ctx (location r) w = inl (record {
    sent = outgoing ctx;
    call = of_location (record {
      to = peer_to_pb r.to;
      latitude = r.latitude;
      longitude = r.longitude;
      name = r.name;
      address = r.address;
      send_id = r.external_id;
    });
    stamped = outgoing-IsStamped ctx.identity ctx.headers;
    same_peer = refl;
    same_body = refl;
    same_files = refl;
    only = refl;
  })
  dispatch-Calls ctx (contact r) w = contact-Calls ctx r w (gateway.new_struct r.metadata) refl
