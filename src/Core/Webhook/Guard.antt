-- ===== src/Core/Webhook/Guard.antt =====
-- When a webhook's body is processed.
use im_providers_service.Prelude.{
  String, ℕ, ◌≡◌, refl, Bool-cases, inl, inr, Option, none, some, List, string_eq,
}
use im_providers_service.Prelude.Io.{Io}
use im_providers_service.Prelude.Failure.{Result, ok, err}
use im_providers_service.Core.Registry.{lookup-new_registry, last_of_type}
use im_providers_service.Core.Webhook.{
  Adapter, Request, handled, after_check, checked, read_body, challenged, receive, serve,
  serve_http,
}

module _ {Query W : Type 0} (P : W → Type 0) (r : Request Query) where
  -- An adapter whose handshake and signature check keep `P`, and whose processing keeps it for bodies
  -- whose signature the check has just accepted.
  pub record Guarded (p : Adapter Query W) : Type 0 where
    pub verify :
        (v : String → Query → Io W (List ℕ)) (w : W)
        → p.verify ≡ some v
        → P w
        → P (v r.uri r.query w).1
    pub validate :
        (v : String → String → List ℕ → Io W (Unit {0})) (body : List ℕ) (w : W)
        → p.validate_signature ≡ some v
        → P w
        → P (v r.uri r.signature body w).1
    pub handle :
        (v : String → String → List ℕ → Io W (Unit {0})) (body : List ℕ) (w : W)
        → p.validate_signature ≡ some v
        → (v r.uri r.signature body w).0 ≡ ok tt
        → P (v r.uri r.signature body w).1
        → P (p.handle_webhook r.uri body (v r.uri r.signature body w).1).1

  -- Whatever the adapter does otherwise, it has a signature check.
  abbrev pub HasCheck : Adapter Query W → Type 0
  HasCheck p = ¬ (p.validate_signature ≡ none)

  handled-keeps : (result : Result (Unit {0}) × W) → P result.1 → P (handled result).1
  handled-keeps (ok t, w) h = h
  handled-keeps (err e, w) h = h

  challenged-keeps : (result : Result (List ℕ) × W) → P result.1 → P (challenged result).1
  challenged-keeps (ok text, w) h = h
  challenged-keeps (err e, w) h = h

  module _ (p : Adapter Query W) (guarded : Guarded p) (has : HasCheck p) where
    after_check-keeps :
        (body : List ℕ) (result : Result (Unit {0}) × W)
        → (result.0 ≡ ok tt → P result.1 → P (p.handle_webhook r.uri body result.1).1)
        → P result.1
        → P (after_check p r body result).1
    after_check-keeps body (err e, w) h k = k
    after_check-keeps body (ok t, w) h k = handled-keeps (p.handle_webhook r.uri body w) (h refl k)

    checked-keeps :
        (body : List ℕ) (check : Option (String → String → List ℕ → Io W (Unit {0}))) (w : W)
        → p.validate_signature ≡ check
        → P w
        → P (checked p r body check w).1
    checked-keeps body none w q k = absurd (has q)
    checked-keeps body (some v) w q k =
        after_check-keeps body (v r.uri r.signature body w) (guarded.handle v body w q)
          (guarded.validate v body w q k)

    read_body-keeps : (body : Result (List ℕ)) (w : W) → P w → P (read_body p r body w).1
    read_body-keeps (err e) w k = k
    read_body-keeps (ok body) w k = checked-keeps body p.validate_signature w refl k

    receive-keeps :
        (v : Option (String → Query → Io W (List ℕ))) (w : W)
        → p.verify ≡ v
        → P w
        → P (receive p r v w).1
    receive-keeps none w q k = read_body-keeps r.body w k
    receive-keeps (some v) w q k = elim (Bool-cases r.is_get) [
      | inl e ↦ rw e (challenged-keeps (v r.uri r.query w) (guarded.verify v w q k))
      | inr e ↦ rw e (read_body-keeps r.body w k)
    ]

  -- A body is processed only after its signature was checked and accepted: if the adapters of a
  -- type have a check, then every property of the world that handshakes and checks keep, and that
  -- processing keeps for bodies that the check has just accepted, is kept by every request to them.
  pub serve_http-guarded :
      (adapters : List (Adapter Query W)) (w : W)
      → ((p : Adapter Query W)
          → last_of_type (λ (a : Adapter Query W). a.type) r.provider adapters ≡ some p
          → Guarded p × HasCheck p)
      → P w
      → P (serve_http adapters r w).1
  unfolding serve_http
  serve_http-guarded adapters w h k =
      rw (lookup-new_registry (λ (a : Adapter Query W). a.type) adapters r.provider)
        (served (last_of_type (λ (a : Adapter Query W). a.type) r.provider adapters) refl)
    where
      served :
          (found : Option (Adapter Query W))
          → last_of_type (λ (a : Adapter Query W). a.type) r.provider adapters ≡ found
          → P (serve found r w).1
      served none q = k
      served (some p) q =
          let (guarded, has) = h p q in receive-keeps p guarded has p.verify w refl k
