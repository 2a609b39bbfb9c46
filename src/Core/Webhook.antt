-- ===== src/Core/Webhook.antt =====
-- internal/core/webhook/handler.go: the HTTP entry point of all webhooks. Logging is left out.
pub mod Guard
mod Tests
use im_providers_service.Prelude.{
  String, ℕ, ◌≡◌, Bool, true, false, Option, none, some, List, ◌==◌, string_eq, if◌then◌else◌,
}
use im_providers_service.Prelude.Dict.{lookup}
use im_providers_service.Prelude.Io.{Io}
use im_providers_service.Prelude.Failure.{Failure, Result, ok, err}
use im_providers_service.Core.Registry.{new_registry}

-- `provider.Provider` on the inbound side, with the optional interfaces `Verifier` and
-- `SignatureValidator`. `Query` is `url.Values`.
pub record Adapter (Query W : Type 0) : Type 0 where
  pub type : String
  pub verify : Option (String → Query → Io W (List ℕ))
  pub validate_signature : Option (String → String → List ℕ → Io W (Unit {0}))
  pub handle_webhook : String → List ℕ → Io W (Unit {0})

-- `http.Request`: the route's two parts, the method, the query, the signature's header, and the body
-- or the error of reading it.
pub record Request (Query : Type 0) : Type 0 where
  pub provider : String
  pub uri : String
  pub is_get : Bool
  pub query : Query
  pub signature : String
  pub body : Result (List ℕ)

-- The answers: 200 with or without a challenge, and the error statuses.
pub data Response : Type 0 where
  no_provider forbidden invalid_request done : Response
  processing_failed : Failure → Response
  challenge : List ℕ → Response

abbrev pub challenged : {W : Type 0} → Result (List ℕ) × W → Response × W
challenged (err e, w) = (forbidden, w)
challenged (ok text, w) = (challenge text, w)

abbrev pub handled : {W : Type 0} → Result (Unit {0}) × W → Response × W
handled (ok t, w) = (done, w)
handled (err e, w) = (processing_failed e, w)

module _ {Query W : Type 0} where
  -- The signature's check, and the processing if it passes.
  abbrev pub process : Adapter Query W → Request Query → List ℕ → W → Response × W
  process p r body w = handled (p.handle_webhook r.uri body w)

  abbrev pub after_check :
      Adapter Query W → Request Query → List ℕ → Result (Unit {0}) × W → Response × W
  after_check p r body (err e, w) = (forbidden, w)
  after_check p r body (ok t, w) = process p r body w

  abbrev pub checked :
      Adapter Query W
      → Request Query
      → List ℕ
      → Option (String → String → List ℕ → Io W (Unit {0}))
      → W
      → Response × W
  checked p r body none w = process p r body w
  checked p r body (some validate) w = after_check p r body (validate r.uri r.signature body w)

  abbrev pub read_body : Adapter Query W → Request Query → Result (List ℕ) → W → Response × W
  read_body p r (err e) w = (invalid_request, w)
  read_body p r (ok body) w = checked p r body p.validate_signature w

  abbrev pub receive :
      Adapter Query W → Request Query → Option (String → Query → Io W (List ℕ)) → W → Response × W
  receive p r none w = read_body p r r.body w
  receive p r (some verify) w =
      if r.is_get then challenged (verify r.uri r.query w) else read_body p r r.body w

  abbrev pub serve : Option (Adapter Query W) → Request Query → W → Response × W
  serve none r w = (no_provider, w)
  serve (some p) r w = receive p r p.verify w

  -- `NewHandler` and `ServeHTTP`
  unfoldable pub serve_http : List (Adapter Query W) → Request Query → W → Response × W
  serve_http adapters r w =
      serve (lookup r.provider (new_registry (λ (p : Adapter Query W). p.type) adapters)) r w
