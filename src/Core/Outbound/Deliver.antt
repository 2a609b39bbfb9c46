-- ===== src/Core/Outbound/Deliver.antt =====
-- The outbound handlers against a description with no cache.
use im_providers_service.Prelude.{
  String, ℕ, ◌≡◌, refl, ap, ◌∙◌, inl, inr, Bool-cases, none, some, List, [], map, ◌==◌, string_eq,
  if◌then◌else◌,
}
use im_providers_service.Prelude.Lru.{Lru}
use im_providers_service.Prelude.Io.{Io}
use Prim.Native.String
use im_providers_service.Prelude.Failure
use im_providers_service.Prelude.Failure.{Result, ok, err, status, is_token_invalid}
use im_providers_service.Core.Gate.{GateType}
use im_providers_service.Core.Message.{Message, MessageResponse, peer_of_sub}
use im_providers_service.Core.Outbound.{
  Sender, Row, Handler, to_grpc_error, answer, deliver_by, deliver_with, deliver, send_text,
  send_image, send_document, send_interactive, send_rendered, system_with, send_system_message,
}
use im_providers_service.Core.Requests.{
  TextRequest, FilesRequest, InteractiveRequest, SystemRequest, SendResponse, message_to,
}
use im_providers_service.Core.Outbound.Resolve.{
  IsCoherent, resolve_uncached, Resolves, resolve_sender-uncached,
}

-- What a caller sees: the answer, and the world after it.
abbrev pub outcome : {C W A : Type 0} → Result A × Handler C W → Result A × W
outcome (r, s) = (r, s.world)

module _ {W : Type 0} (lru : Lru GateType) (query_type : String → W → Row) (now : W → ℕ)
    (registry : List (String × Sender W)) where
  abbrev S : Type 0
  S = Handler lru.Cache W

  abbrev pub reported : Result MessageResponse × W → Result SendResponse × W
  reported (ok r, w) = (ok (record { external_id = r.id; created_at = now w }), w)
  reported (err e, w) = (
    err (
        if is_token_invalid e
        then status Failure.unauthenticated
            "page token invalid or revoked: re-authorize via StartMetaOAuth"
        else e),
    w,
  )

  -- The messages of the requests, and the method for a message with a keyboard.
  abbrev pub text_sent : TextRequest → Message
  text_sent req = record {
    gate_id = req.gate_id;
    domain_id = req.domain_id;
    to = peer_of_sub req.external_user_id;
    text = req.text;
    documents = [];
    images = [];
    interactive = none;
  }

  abbrev pub images_sent : FilesRequest → Message
  images_sent req = record {
    gate_id = req.gate_id;
    domain_id = req.domain_id;
    to = peer_of_sub req.external_user_id;
    text = req.caption;
    documents = [];
    images =
        map
          (λ f. record {
            id = f.id;
            file_name = f.name;
            mime_type = f.mime_type;
            url = f.url;
            size = f.size;
          })
          req.files;
    interactive = none;
  }

  abbrev pub documents_sent : FilesRequest → Message
  documents_sent req = record {
    gate_id = req.gate_id;
    domain_id = req.domain_id;
    to = peer_of_sub req.external_user_id;
    text = req.caption;
    documents =
        map
          (λ f. record {
            id = f.id;
            file_name = f.name;
            mime_type = f.mime_type;
            url = f.url;
            size = f.size;
          })
          req.files;
    images = [];
    interactive = none;
  }

  abbrev pub interactive_sent : InteractiveRequest → Message
  interactive_sent req = record {
    gate_id = req.gate_id;
    domain_id = req.domain_id;
    to = peer_of_sub req.external_user_id;
    text = req.body;
    documents = [];
    images = [];
    interactive = req.interactive;
  }

  abbrev pub keyboard_method : Sender W → Result (Message → Io W MessageResponse)
  keyboard_method p = elim p.send_interactive [
    | some send ↦ ok send
    | none ↦ err (
        status Failure.unimplemented
          (String.◌++◌ (String.◌++◌ "provider " p.type) " does not support interactive messages"))
  ]

  -- Delivery with the sender resolved by the database alone.
  abbrev pub deliver_uncached :
      (Sender W → Result (Message → Io W MessageResponse))
      → String
      → Message
      → W
      → Result SendResponse × W
  deliver_uncached method id msg w = elim (resolve_uncached lru query_type now registry id w) [
    | err e ↦ (err e, w)
    | ok p ↦ elim (method p) [ err e ↦ (err e, w) | ok send ↦ reported (send msg w) ]
  ]

  outcome-answer :
      (s : S) (r : Result MessageResponse × W)
      → outcome (answer lru query_type now registry r s) ≡ reported r
  unfolding answer to_grpc_error
  outcome-answer s (ok r, w) = refl
  outcome-answer s (err e, w) = refl

  outcome-deliver_with :
      (method : Sender W → Result (Message → Io W MessageResponse)) (id : String) (msg : Message)
      (s : S) (r : Result (Sender W) × S)
      → Resolves lru query_type now registry id s r
      → outcome (deliver_with lru query_type now registry method msg r)
        ≡ deliver_uncached method id msg s.world
  unfolding deliver_with
  outcome-deliver_with method id msg s (err e, s') h =
      rw (← h.sender, deliver_uncached) (ap (λ w. (err e, w)) h.world)
  outcome-deliver_with method id msg s (ok p, s') h =
      rw (← h.sender, deliver_uncached) (chosen (method p))
    where
      chosen :
          (m : Result (Message → Io W MessageResponse))
          → outcome (deliver_by lru query_type now registry m msg s')
            ≡ (elim m [ err e ↦ (err e, s.world) | ok send ↦ reported (send msg s.world) ])
      chosen (err e) = ap (λ w. (err e, w)) h.world
      chosen (ok send) =
          rw (outcome-answer s' (send msg s'.world)) (ap (λ w. reported (send msg w)) h.world)

  deliver-uncached :
      (method : Sender W → Result (Message → Io W MessageResponse)) (id : String) (msg : Message)
      (s : S)
      → IsCoherent lru query_type now registry s
      → outcome (deliver lru query_type now registry method id msg s)
        ≡ deliver_uncached method id msg s.world
  unfolding deliver
  deliver-uncached method id msg s h =
      outcome-deliver_with method id msg s _
        (resolve_sender-uncached lru query_type now registry id s h)

  -- From a coherent cache, a text, image, document or interactive message is sent by the adapter
  -- that the database alone would choose, through the method for its kind and with the request's own
  -- fields; the answer is the adapter's id and the time, or the first error, where an invalid page
  -- token is answered as unauthenticated, and nothing is sent when no adapter is found or it takes no
  -- interactive messages.
  pub handlers-uncached :
      (s : S) (t : TextRequest) (i d : FilesRequest) (m : InteractiveRequest)
      → IsCoherent lru query_type now registry s
      → (outcome (send_text lru query_type now registry t s)
          ≡ deliver_uncached (λ p. ok p.send_text) t.gate_id (text_sent t) s.world)
        × (outcome (send_image lru query_type now registry i s)
            ≡ deliver_uncached (λ p. ok p.send_image) i.gate_id (images_sent i) s.world)
        × (outcome (send_document lru query_type now registry d s)
            ≡ deliver_uncached (λ p. ok p.send_document) d.gate_id (documents_sent d) s.world)
        × (outcome (send_interactive lru query_type now registry m s)
            ≡ deliver_uncached keyboard_method m.gate_id (interactive_sent m) s.world)
  unfolding send_text send_image send_document send_interactive
  handlers-uncached s t i d m h = (
    deliver-uncached _ t.gate_id _ s h,
    deliver-uncached _ i.gate_id _ s h,
    deliver-uncached _ d.gate_id _ s h,
    deliver-uncached _ m.gate_id _ s h,
  )

  module _ (render : String → String → List (String × String) → W → String × W) where
    abbrev pub system_rendered : SystemRequest → Sender W → String × W → Result SendResponse × W
    system_rendered req p (text, w) =
        if text == ""
        then (ok (record { external_id = ""; created_at = now w }), w)
        else reported
            (p.send_text (message_to req.gate_id req.external_user_id req.domain_id text) w)

    -- A system message with the sender resolved by the database alone.
    abbrev pub system_uncached : SystemRequest → W → Result SendResponse × W
    system_uncached req w = elim (resolve_uncached lru query_type now registry req.gate_id w) [
      | err e ↦ (err e, w)
      | ok p ↦ system_rendered req p (render req.gate_id req.event_type req.vars w)
    ]

    outcome-send_rendered :
        (req : SystemRequest) (p : Sender W) (r : String × W) (s : S)
        → outcome (send_rendered lru query_type now registry render req p r s)
          ≡ system_rendered req p r
    unfolding send_rendered
    outcome-send_rendered req p (text, w) s = elim (Bool-cases (text == "")) [
      | inl e ↦ rw e
      | inr e ↦ rw e (outcome-answer (record s { world = w }) _)
    ]

    outcome-system_with :
        (req : SystemRequest) (s : S) (r : Result (Sender W) × S)
        → Resolves lru query_type now registry req.gate_id s r
        → outcome (system_with lru query_type now registry render req r)
          ≡ system_uncached req s.world
    unfolding system_with
    outcome-system_with req s (err e, s') h =
        rw (← h.sender, system_uncached) (ap (λ w. (err e, w)) h.world)
    outcome-system_with req s (ok p, s') h =
        rw (← h.sender, system_uncached)
          (outcome-send_rendered req p _ s'
            ∙ ap (λ w. system_rendered req p (render req.gate_id req.event_type req.vars w))
                h.world)

    -- From a coherent cache, a system message goes out as a text by the adapter that the database
    -- alone would choose; when its template renders to nothing, no adapter is called and the answer
    -- is a success without an id; a gate that cannot be resolved is an error before any rendering.
    pub send_system_message-uncached :
        (s : S) (req : SystemRequest)
        → IsCoherent lru query_type now registry s
        → outcome (send_system_message lru query_type now registry render req s)
          ≡ system_uncached req s.world
    unfolding send_system_message
    send_system_message-uncached s req h =
        outcome-system_with req s _
          (resolve_sender-uncached lru query_type now registry req.gate_id s h)
