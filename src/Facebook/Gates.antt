-- ===== src/Facebook/Gates.antt =====
-- internal/facebook/provider.go (the webhook's handshake and the gate cache), signature.go,
-- `HandleWebhook` of webhook.go, and what `Update` and `Unbind` of store/postgres/facebook.go do to
-- the gate cache (core/store/gate_lru.go). The queries, the encryption, the MAC and the decoding of
-- JSON are arguments. Logging is left out.
pub mod Signature
pub mod Batch
pub mod Stale
mod Tests
use Prim.Native.String
use im_providers_service.Prelude.{
  String, ℕ, ◌≡◌, Bool, true, false, ◌&&◌, not, Option, none, some, List, [], ◌∷◌, ◌==◌, nat_eq,
  string_eq, if◌then◌else◌,
}
use im_providers_service.Prelude.Int.{ℤ}
use im_providers_service.Prelude.Text.{codes, text_beq}
use im_providers_service.Prelude.Lru.{Lru}
use im_providers_service.Prelude.Io.{Io, ◌>>=◌, follow}
use im_providers_service.Prelude.Failure.{Failure, Result, ok, err, wrapped, plain, err_not_found}
use im_providers_service.Core.Message.{Peer}
use im_providers_service.Facebook.Model.{
  FacebookGate, MetaApp, Messaging, Entry, WebhookRequest, all_messages,
}
use im_providers_service.Facebook.Services.{Services}
use im_providers_service.Facebook.Inbound.{process_message}

-- `sharedstore.GateState`
pub record GateState : Type 0 where
  pub gate_id : String
  pub enabled : Bool
  pub issuer : String
  pub sub : String
  pub domain : ℤ

-- `parseVerify`'s request
pub record VerifyRequest : Type 0 where
  pub mode : String
  pub challenge : String
  pub verify_token : String

-- What follows a prefix, if the text starts with it: `strings.HasPrefix` and `strings.TrimPrefix`.
pub strip_prefix : List ℕ → List ℕ → Option (List ℕ)
strip_prefix [] s = some s
strip_prefix (p ∷ ps) [] = none
strip_prefix (p ∷ ps) (c ∷ s) = let rest = strip_prefix ps s in if p == c then rest else none

-- `webhookURI`, of the path segment that the HTTP layer puts into the context.
unfoldable pub webhook_uri : String → String
webhook_uri uri = elim (strip_prefix (codes "/") (codes uri)) [
  | none ↦ String.◌++◌ "/" uri
  | some rest ↦ uri
]

-- `gateKey`
unfoldable pub gate_key : String → String → String
gate_key uri page_id = String.◌++◌ uri (String.◌++◌ ":" page_id)

-- `Verify`, with the app that its query finds.
unfoldable pub verify : (String → Result MetaApp) → String → VerifyRequest → Result String
verify select_app uri req =
    if req.mode == "subscribe"
    then elim (select_app (webhook_uri uri)) [
      | err e ↦ err (wrapped "verify: app lookup failed" e)
      | ok app ↦
          if not (app.verify_token == "") && not (req.verify_token == app.verify_token)
          then err (plain "verify_token mismatch")
          else ok req.challenge
    ]
    else err (plain "unexpected hub.mode")

-- `ValidateSignature`, from its last guard back; `mac` is the hexadecimal HMAC-SHA256 under a secret.
module _ (select_app : String → Result MetaApp) (mac : String → List ℕ → List ℕ) where
  abbrev pub check_mac : List ℕ → List ℕ → Result MetaApp → Result (Unit {0})
  check_mac body given (err e) = err (wrapped "signature: app lookup failed" e)
  check_mac body given (ok app) =
      if text_beq given (mac app.app_secret body) then ok tt else err (plain "signature mismatch")

  abbrev pub check_format : String → List ℕ → Option (List ℕ) → Result (Unit {0})
  check_format uri body none = err (plain "invalid signature format")
  check_format uri body (some given) = check_mac body given (select_app (webhook_uri uri))

  unfoldable pub validate_signature : String → String → List ℕ → Result (Unit {0})
  validate_signature uri header body =
      if header == ""
      then err (plain "missing X-Hub-Signature-256 header")
      else check_format uri body (strip_prefix (codes "sha256=") (codes header))

abbrev pub state_of : FacebookGate → GateState
state_of g = record {
  gate_id = g.id;
  enabled = g.enabled;
  issuer = g.peer.iss;
  sub = g.peer.sub;
  domain = g.domain_id;
}

-- The gate cache beside the world of the provider's other services.
pub record Shared (Cache W : Type 0) : Type 0 where
  pub cache : Cache
  pub world : W

-- The gate of a webhook: a bare disabled one, if that is what the cache holds.
pub data Resolved : Type 0 where
  disabled : Resolved
  found : FacebookGate → Resolved

abbrev pub is_disabled : Option GateState → Bool
is_disabled none = false
is_disabled (some state) = not state.enabled

-- The loop of `HandleWebhook`: an error is logged and the next message follows.
pub process_all : {W : Type 0} → Services W → FacebookGate → List Messaging → W → W
process_all api gate [] w = w
process_all api gate (m ∷ ms) w = process_all api gate ms (process_message api gate m w).1

module _ {W : Type 0} (lru : Lru GateState) (api : Services W)
    (select_gate : String → String → W → Result FacebookGate) where
  -- The cache is set for a gate that the query finds.
  abbrev pub keep_gate : String → String → Result FacebookGate → Io (Shared lru.Cache W) Resolved
  keep_gate uri page_id (err e) s = (err e, s)
  keep_gate uri page_id (ok g) s =
      (ok (found g), record s { cache = lru.add s.cache (gate_key uri page_id) (state_of g) })

  unfoldable pub resolve_gate : String → String → Io (Shared lru.Cache W) Resolved
  resolve_gate uri page_id s =
      let (cached, cache) = lru.get s.cache (gate_key uri page_id) in
      if is_disabled cached
      then (ok disabled, record s { cache = cache })
      else keep_gate uri page_id (select_gate page_id uri s.world) (record s { cache = cache })

  unfoldable pub process_for : List Messaging → Resolved → Io (Shared lru.Cache W) (Unit {0})
  process_for ms disabled s = (ok tt, s)
  process_for ms (found gate) s =
      if gate.enabled
      then (ok tt, record s { world = process_all api gate ms s.world })
      else (ok tt, s)

  -- The entries of an event that is not empty are all handled under the first one's gate.
  abbrev pub handle_entries :
      String → List Messaging → List Entry → Io (Shared lru.Cache W) (Unit {0})
  handle_entries uri ms [] s = (ok tt, s)
  handle_entries uri ms (e ∷ es) s = (resolve_gate (webhook_uri uri) e.id >>= process_for ms) s

  -- `HandleWebhook`, on the event that `ParseWebhook` gives or its error.
  abbrev pub handle_webhook : String → Result WebhookRequest → Io (Shared lru.Cache W) (Unit {0})
  handle_webhook uri (err e) s = (ok tt, s)
  handle_webhook uri (ok evt) s = handle_entries uri (all_messages evt) evt.entry s

-- The store's writes; `encrypt` and the transaction are arguments.
module _ {W : Type 0} (lru : Lru GateState) (encrypt : String → Result String)
    (write : FacebookGate → String → Io W (Unit {0})) (delete : String → Io W String) where
  -- The end of `Update`: the cache's entry is dropped when the transaction is done.
  abbrev pub after_write :
      FacebookGate
      → Result (Unit {0}) × W
      → Shared lru.Cache W
      → Result (Unit {0}) × Shared lru.Cache W
  after_write g (err e, w) s = (err e, record s { world = w })
  after_write g (ok t, w) s = (ok tt, record { cache = lru.remove s.cache g.page_id; world = w })

  abbrev pub with_token : FacebookGate → Result String → Io (Shared lru.Cache W) (Unit {0})
  with_token g (err e) s = (err (wrapped "crypto" e), s)
  with_token g (ok token) s = after_write g (write g token s.world) s

  -- `facebookStore.Update`
  unfoldable pub update : FacebookGate → Io (Shared lru.Cache W) (Unit {0})
  update g s = with_token g (encrypt g.page_token) s

  -- `facebookStore.Unbind`; the transaction gives the gate's page, or "" if it has none.
  unfoldable pub unbind : String → Io (Shared lru.Cache W) (Unit {0})
  unbind gate_id s =
      let (page, w) = delete gate_id s.world in
      elim page [
        | err e ↦ (err e, record s { world = w })
        | ok page_id ↦
            if page_id == ""
            then (ok tt, record s { world = w })
            else (ok tt, record { cache = lru.remove s.cache page_id; world = w })
      ]
