-- ===== src/Core/Outbound.antt =====
-- internal/core/handler/outbound_message.go: the gRPC handlers that send messages, and
-- `GetTypeByID` of internal/core/store/gate_postgres.go. Logging is left out.
pub mod Keyboard
pub mod Resolve
pub mod Deliver
mod Tests
use Prim.Native.String
use im_providers_service.Prelude.{
  String, ℕ, ◌≡◌, Bool, true, false, Option, none, some, List, [], ◌∷◌, map, ◌==◌, string_eq,
  if◌then◌else◌,
}
use im_providers_service.Prelude.Int.{ℤ}
use im_providers_service.Prelude.Lru.{Lru}
use im_providers_service.Prelude.Io.{Io}
use im_providers_service.Prelude.Failure.{
  Failure, Result, ok, err, wrapped, status, err_not_found, is_not_found, is_token_invalid,
}
use im_providers_service.Prelude.Failure
use im_providers_service.Core.Message.{
  Message, MessageResponse, Image, Document, Interactive, peer_of_sub,
}
use im_providers_service.Core.Gate.{GateType, type_unknown, gate_type_string, parse_gate_type}
use im_providers_service.Core.Registry
use im_providers_service.Core.Requests.{
  SendResponse, FileInput, TextRequest, FilesRequest, InteractiveRequest, SystemRequest, message_to,
  text_message, image_message, document_message, interactive_message,
}

-- `provider.Sender`, with the methods' effects on a world `W`; `send_interactive` is there if the
-- adapter is an `InteractiveSender` too. An adapter that returns no error returns a response.
pub record Sender (W : Type 0) : Type 0 where
  pub type : String
  pub send_text : Message → Io W MessageResponse
  pub send_image : Message → Io W MessageResponse
  pub send_document : Message → Io W MessageResponse
  pub send_interactive : Option (Message → Io W MessageResponse)

-- What `QueryRow(…).Scan` gives for one text column.
pub data Row : Type 0 where
  row : List ℕ → Row
  no_rows : Row
  failed : Failure → Row

-- `gateStore.GetTypeByID`, from the answer of its query.
pub get_type_by_id : Row → Result GateType
get_type_by_id no_rows = err err_not_found
get_type_by_id (failed e) = err (wrapped "postgres: get gate type" e)
get_type_by_id (row s) = ok (parse_gate_type s)

unfoldable pub to_grpc_error : Failure → Failure
to_grpc_error e =
    if is_token_invalid e
    then status Failure.unauthenticated
        "page token invalid or revoked: re-authorize via StartMetaOAuth"
    else e

-- The handler's cache, and the world behind the adapters and the database.
pub record Handler (C W : Type 0) : Type 0 where
  pub type_cache : C
  pub world : W

abbrev is_unknown : GateType → Bool
is_unknown type_unknown = true
is_unknown _ = false

-- What the handler uses: the LRU cache, the type query, the clock, and the registry's map.
module _ {W : Type 0} (lru : Lru GateType) (query_type : String → W → Row) (now : W → ℕ)
    (registry : List (String × Sender W)) where
  abbrev S : Type 0
  S = Handler lru.Cache W

  -- The store's answer to a cache miss.
  keep_type : String → Result GateType → Io S GateType
  keep_type gate_id (ok t) s = (ok t, record s { type_cache = lru.add s.type_cache gate_id t })
  keep_type gate_id (err e) s = (
    err (
        if is_not_found e
        then status Failure.not_found (String.◌++◌ "gate not found: " gate_id)
        else status Failure.internal (String.◌++◌ "failed to resolve gate type for: " gate_id)),
    s,
  )

  cached_type : String → Option GateType × lru.Cache → Io S GateType
  unfolding keep_type
  cached_type gate_id (some t, c) s = (ok t, record s { type_cache = c })
  cached_type gate_id (none, c) s =
      keep_type gate_id (get_type_by_id (query_type gate_id s.world)) (record s { type_cache = c })

  pub pick_sender : String → GateType → Result (Sender W)
  pick_sender gate_id t =
      if is_unknown t
      then err
          (status Failure.invalid_argument (String.◌++◌ "unknown gate type for gate: " gate_id))
      else elim (Registry.get (λ (p : Sender W). p.type) registry (gate_type_string t)) [
        | ok p ↦ ok p
        | err e ↦ err (
            status Failure.unimplemented
              (String.◌++◌ "provider not registered: " (gate_type_string t)))
      ]

  pick_resolved : String → Result GateType × S → Result (Sender W) × S
  pick_resolved gate_id (ok t, s) = (pick_sender gate_id t, s)
  pick_resolved gate_id (err e, s) = (err e, s)

  pub resolve_sender : String → Io S (Sender W)
  resolve_sender gate_id s =
      pick_resolved gate_id (cached_type gate_id (lru.get s.type_cache gate_id) s)

  -- The end of each handler.
  pub answer : Result MessageResponse × W → Io S SendResponse
  answer (ok r, w) s =
      (ok (record { external_id = r.id; created_at = now w }), record s { world = w })
  answer (err e, w) s = (err (to_grpc_error e), record s { world = w })

  deliver_by : Result (Message → Io W MessageResponse) → Message → Io S SendResponse
  deliver_by (ok send) msg s = answer (send msg s.world) s
  deliver_by (err e) msg s = (err e, s)

  deliver_with :
      (Sender W → Result (Message → Io W MessageResponse))
      → Message
      → Result (Sender W) × S
      → Result SendResponse × S
  unfolding deliver_by
  deliver_with method msg (ok p, s) = deliver_by (method p) msg s
  deliver_with method msg (err e, s) = (err e, s)

  -- What the handlers have in common: resolve the sender, choose its method, send, answer.
  pub deliver :
      (Sender W → Result (Message → Io W MessageResponse)) → String → Message → Io S SendResponse
  deliver method gate_id msg s = deliver_with method msg (resolve_sender gate_id s)

  pub send_text : TextRequest → Io S SendResponse
  send_text req = deliver (λ p. ok p.send_text) req.gate_id (text_message req)

  pub send_image : FilesRequest → Io S SendResponse
  send_image req = deliver (λ p. ok p.send_image) req.gate_id (image_message req)

  pub send_document : FilesRequest → Io S SendResponse
  send_document req = deliver (λ p. ok p.send_document) req.gate_id (document_message req)

  abbrev interactive_method : Sender W → Result (Message → Io W MessageResponse)
  interactive_method p = elim p.send_interactive [
    | some send ↦ ok send
    | none ↦ err (
        status Failure.unimplemented
          (String.◌++◌ (String.◌++◌ "provider " p.type) " does not support interactive messages"))
  ]

  pub send_interactive : InteractiveRequest → Io S SendResponse
  send_interactive req = deliver interactive_method req.gate_id (interactive_message req)

  -- `render` is `TemplateRenderer.Render`.
  module _ (render : String → String → List (String × String) → W → String × W) where
    send_rendered : SystemRequest → Sender W → String × W → Io S SendResponse
    send_rendered req p (text, w) s =
        if text == ""
        then (ok (record { external_id = ""; created_at = now w }), record s { world = w })
        else answer (p.send_text (message_to req.gate_id req.external_user_id req.domain_id text) w)
            (record s { world = w })

    system_with : SystemRequest → Result (Sender W) × S → Result SendResponse × S
    unfolding send_rendered
    system_with req (ok p, s) =
        send_rendered req p (render req.gate_id req.event_type req.vars s.world) s
    system_with req (err e, s) = (err e, s)

    pub send_system_message : SystemRequest → Io S SendResponse
    send_system_message req s = system_with req (resolve_sender req.gate_id s)
