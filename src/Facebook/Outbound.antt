-- ===== src/Facebook/Outbound.antt =====
-- internal/facebook/outbound.go and `fetchGate` of provider.go: messages to the users of a page. The store,
-- the contact service and the Graph API are arguments. The texts of errors are without the ids in them.
pub mod Psid
mod Tests
use im_providers_service.Prelude.{
  String, ℕ, ◌≡◌, Bool, true, false, ◌||◌, Option, none, some, List, [], ◌∷◌, any, ◌==◌, nat_eq,
  string_eq, if◌then◌else◌,
}
use im_providers_service.Prelude.Text.{codes}
use im_providers_service.Prelude.Lru.{Lru}
use im_providers_service.Prelude.Io.{Io, ◌>>=◌}
use im_providers_service.Prelude.Failure.{Failure, Result, ok, err, wrapped, plain}
use im_providers_service.Core.Message.{Message, MessageResponse, Image, Document, Interactive}
use im_providers_service.Facebook.Model.{FacebookGate}
use im_providers_service.Facebook.Services.{gateway_identity}

-- What the sends call: the gate by its id, the subjects of the contacts with an id (under the identity
-- of the caller), and the Graph API by token and recipient.
pub record Graph (W : Type 0) : Type 0 where
  pub select_gate : String → Io W FacebookGate
  pub search_contact : String → String → Io W (List String)
  pub send_text : String → String → String → Io W MessageResponse
  pub send_media : String → String → String → String → Io W MessageResponse
  pub send_interactive : String → String → String → Option Interactive → Io W MessageResponse

-- The PSID cache beside the world.
pub record Psids (Cache W : Type 0) : Type 0 where
  pub cache : Cache
  pub world : W

-- `strings.Contains(contactID, "-")`
unfoldable pub has_dash : String → Bool
has_dash id = any (λ c. c == b'-') (codes id)

-- `firstURL`, of images and of documents
abbrev pub first_image_url : List Image → String
first_image_url [] = ""
first_image_url (i ∷ images) = i.url

abbrev pub first_document_url : List Document → String
first_document_url [] = ""
first_document_url (d ∷ documents) = d.url

module _ {W : Type 0} (lru : Lru String) (graph : Graph W) where
  abbrev S : Type 0
  S = Psids lru.Cache W

  -- A call that does not touch the cache.
  abbrev pub call : {A : Type 0} → Io W A → Io S A
  call m s = let (r, w) = m s.world in (r, record s { world = w })

  -- The end of `resolvePSID`, from the subjects of the contacts that were found.
  abbrev pub keep_psid : String → List String → Io S String
  keep_psid id [] s = (err (plain "contact not found or has no subject"), s)
  keep_psid id (psid ∷ subjects) s =
      if psid == ""
      then (err (plain "contact not found or has no subject"), s)
      else (ok psid, record s { cache = lru.add s.cache id psid })

  abbrev pub found_psid : String → Result (List String) × S → Result String × S
  found_psid id (err e, s) = (err (wrapped "resolve psid" e), s)
  found_psid id (ok subjects, s) = keep_psid id subjects s

  abbrev pub cached_psid : FacebookGate → String → Option String × lru.Cache → Io S String
  cached_psid gate id (some psid, cache) s = (ok psid, record s { cache = cache })
  cached_psid gate id (none, cache) s =
      found_psid id
        (call (graph.search_contact (gateway_identity gate) id) (record s { cache = cache }))

  unfoldable pub resolve_psid : FacebookGate → String → Io S String
  resolve_psid gate id s =
      if has_dash id then cached_psid gate id (lru.get s.cache id) s else (ok id, s)

  -- What all four methods start with.
  abbrev pub to_user :
      Message → (FacebookGate → String → Io W MessageResponse) → Io S MessageResponse
  to_user req send = call (graph.select_gate req.gate_id) >>= λ g.
      resolve_psid g req.to.sub >>= λ psid. call (send g psid)

  unfoldable pub send_text : Message → Io S MessageResponse
  send_text req = to_user req (λ g psid. graph.send_text g.page_token psid req.text)

  unfoldable pub send_image : Message → Io S MessageResponse
  send_image req =
      to_user req
        (λ g psid. graph.send_media g.page_token psid "image" (first_image_url req.images))

  unfoldable pub send_document : Message → Io S MessageResponse
  send_document req =
      to_user req
        (λ g psid. graph.send_media g.page_token psid "file" (first_document_url req.documents))

  unfoldable pub send_interactive : Message → Io S MessageResponse
  send_interactive req =
      to_user req (λ g psid. graph.send_interactive g.page_token psid req.text req.interactive)
