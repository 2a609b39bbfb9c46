-- ===== src/Core/Webhook/Tests.antt =====
-- An adapter with a signature check, for the theorem on requests.
use im_providers_service.Prelude.{
  String, ℕ, ◌≡◌, refl, sym, subst, Bool, true, false, none, some, List, [], ◌∷◌, ◌==◌, string_eq,
  if◌then◌else◌,
}
use mathlib.Core.Option.{some-injective}
use im_providers_service.Prelude.Io.{Io}
use im_providers_service.Prelude.Failure.{ok, err, plain}
use im_providers_service.Core.Webhook.{Adapter, Request, serve_http}
use im_providers_service.Core.Webhook.Guard.{Guarded, HasCheck, serve_http-guarded}

-- The world: was the secret's signature given, and was anything processed?
pub record World : Type 0 where
  pub is_signed : Bool
  pub is_processed : Bool

abbrev request : String → Request String
request signature = record {
  provider = "facebook";
  uri = "page";
  is_get = false;
  query = "";
  signature = signature;
  body = ok (1 ∷ []);
}

abbrev fresh : World
fresh = record { is_signed = false; is_processed = false }

-- Nothing is processed.
abbrev IsIdle : World → Type 0
IsIdle w = w.is_processed ≡ false

abbrev check : String → String → List ℕ → Io World (Unit {0})
check uri signature body w =
    if signature == "good"
    then (ok tt, record { is_signed = true; is_processed = w.is_processed })
    else (err (plain "signature mismatch"), w)

abbrev adapter : Adapter String World
adapter = record {
  type = "facebook";
  verify = none;
  validate_signature = some check;
  handle_webhook = λ uri body w. (ok tt, record { is_signed = w.is_signed; is_processed = true });
}

adapter-Guarded : Guarded IsIdle (request "bad") adapter
adapter-Guarded = record {
  verify = λ v w q k. absurd (cc q);
  validate = λ v body w q k.
      subst
        (λ (c : String → String → List ℕ → Io World (Unit {0})). IsIdle (c "page" "bad" body w).1)
        (some-injective check v q) k;
  handle = λ v body w q accepted k. absurd (
      refused body w (
        subst
          (λ (c : String → String → List ℕ → Io World (Unit {0})).
            (c "page" "bad" body w).0 ≡ ok tt)
          (sym (some-injective check v q)) accepted));
}
  where
    refused : (body : List ℕ) (w : World) → ¬ ((check "page" "bad" body w).0 ≡ ok tt)
    refused body w e = cc e

serve_http-guarded_example : IsIdle (serve_http (adapter ∷ []) (request "bad") fresh).1
serve_http-guarded_example =
    serve_http-guarded IsIdle (request "bad") (adapter ∷ []) fresh
      (λ p found.
        subst
          (λ (a : Adapter String World).
            Guarded IsIdle (request "bad") a × HasCheck IsIdle (request "bad") a)
          (some-injective adapter p found) (adapter-Guarded, (λ e. cc e)))
      refl
