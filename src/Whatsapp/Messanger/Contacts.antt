-- ===== src/Whatsapp/Messanger/Contacts.antt =====
-- What the decorated messenger of internal/whatsapp/webhook/webhook.core.messanger.go has done by the
-- time that it passes a request on.
use im_providers_service.Prelude.{◌≡◌, refl, sym, ap, ◌∙◌, [], ◌∷◌, ◌⊎◌, inl, inr, string_eq}
use im_providers_service.Prelude.Int.{ℤ}
use im_providers_service.Prelude.Io.{Io, follow, ◌>>=◌}
use im_providers_service.Prelude.Failure.{Failure, Result, ok, err}
use im_providers_service.Core.Message.{Peer}
use im_providers_service.Whatsapp.Messanger.{
  Core, Headers, out_call_metadata, contact_request, created, via_created, lift, answered,
  resolve_internal_contact_identity, prepare_outgoing_send_core_request, send_through,
}
use im_providers_service.Whatsapp.Messanger.Registered.{
  Registered, Prepared-Registered, Registered-Prepared, after_create, after_via, err_not_ok,
}

module _ {W : Type 0} (core : Core W) (from to : Peer) (dc : ℤ) where
  -- A method passes its request on from a world where the sender is registered, or it fails and does
  -- not pass it on at all: what it does is then the same whatever `send` is.
  abbrev SendsOrFails : W → ((Headers → Io W (Unit {0})) → Result (Unit {0}) × W) → Type 0
  SendsOrFails w method =
      ((w2 : W) × Registered core from to dc w w2
        × ((send : Headers → Io W (Unit {0}))
            → method send ≡ send (("x-webitel-via", to.id) ∷ []) w2))
      ⊎ ((e : Failure) × (w2 : W) × ((send : Headers → Io W (Unit {0}))
            → method send ≡ (err e, w2)))

  sender-Sends :
      (w : W) (headers : Headers)
      → out_call_metadata dc to.sub ≡ ok headers
      → (after_create core from to dc headers w).0 ≡ ok tt
      → (r : Result (Unit {0}) × W) → after_via core from to dc headers w ≡ r
      → (own : Result Headers) → out_call_metadata dc from.sub ≡ own
      → SendsOrFails w (λ send.
        follow
          (follow r (λ _ w2. follow (lift own w2) (λ _. lift (ok (("x-webitel-via", to.id) ∷ [])))))
          send)
  sender-Sends w headers q c (err e, w2) v own p = inr (e, w2, λ send. refl)
  sender-Sends w headers q c (ok _, w2) v (err e) p = inr (e, w2, λ send. refl)
  sender-Sends w headers q c (ok _, w2) v (ok sender) p = inl (
    w2,
    Prepared-Registered core from to dc w w2 (record {
      headers = headers;
      recipient_known = q;
      contact_known = c;
      via_known = v;
      sender = sender;
      sender_known = p;
    }),
    λ send. refl,
  )

  abbrev then_via :
      Headers
      → Result Headers
      → Result (Unit {0}) × W
      → (Headers → Io W (Unit {0}))
      → Result (Unit {0}) × W
  then_via headers own r send =
      follow
        (follow
          (follow r
            (λ _ w1. answered via_created (core.create_via headers from.iss from.sub to.id w1)))
          (λ _ w2. follow (lift own w2) (λ _. lift (ok (("x-webitel-via", to.id) ∷ [])))))
        send

  contact-Sends :
      (w : W) (headers : Headers)
      → out_call_metadata dc to.sub ≡ ok headers
      → (r : Result (Unit {0})) → (after_create core from to dc headers w).0 ≡ r
      → SendsOrFails w (
          then_via headers
            (out_call_metadata dc from.sub)
            (r, (after_create core from to dc headers w).1))
  contact-Sends w headers q (err e) c =
      inr (e, (after_create core from to dc headers w).1, λ send. refl)
  contact-Sends w headers q (ok _) c =
      sender-Sends w headers q c (after_via core from to dc headers w) refl
        (out_call_metadata dc from.sub) refl

  recipient-Sends :
      (w : W) (known : Result Headers)
      → out_call_metadata dc to.sub ≡ known
      → SendsOrFails w (λ send.
        follow
          (follow
            (follow (lift known w) (λ headers w0.
              follow (answered created (core.create headers (contact_request from dc) w0)) (λ _ w1.
                answered via_created (core.create_via headers from.iss from.sub to.id w1))))
            (λ _ w2.
              follow
                (lift (out_call_metadata dc from.sub) w2)
                (λ _. lift (ok (("x-webitel-via", to.id) ∷ [])))))
          send)
  recipient-Sends w (err e) q = inr (e, w, λ send. refl)
  recipient-Sends w (ok headers) q =
      contact-Sends w headers q (after_create core from to dc headers w).0 refl

  sends_or_fails : (w : W) → SendsOrFails w (λ send. send_through core from to dc send w)
  unfolding send_through prepare_outgoing_send_core_request resolve_internal_contact_identity
  sends_or_fails w = recipient-Sends w (out_call_metadata dc to.sub) refl

module _ {W : Type 0} (core : Core W) (from to : Peer) (dc : ℤ) (w2 : W)
    (send : Headers → Io W (Unit {0})) where
  abbrev prepared : Result (Unit {0}) × W → Result (Unit {0}) × W
  prepared r =
      follow
        (follow r (λ _.
          lift (out_call_metadata dc from.sub) >>= λ _. lift (ok (("x-webitel-via", to.id) ∷ []))))
        send

  after_via-sends :
      (own : Headers)
      → out_call_metadata dc from.sub ≡ ok own
      → prepared (ok tt, w2) ≡ send (("x-webitel-via", to.id) ∷ []) w2
  after_via-sends own known = rw known refl

  after_create-sends :
      (headers own : Headers) (r : Result (Unit {0}) × W)
      → r.0 ≡ ok tt
      → answered via_created (core.create_via headers from.iss from.sub to.id r.1) ≡ (ok tt, w2)
      → out_call_metadata dc from.sub ≡ ok own
      → prepared (
          follow r
            (λ _ w1. answered via_created (core.create_via headers from.iss from.sub to.id w1)))
        ≡ send (("x-webitel-via", to.id) ∷ []) w2
  after_create-sends headers own (ok _, w1) made via known = rw via (after_via-sends own known)
  after_create-sends headers own (err e, w1) made via known = absurd (cc made)

  -- Once the sender is registered, a request is passed on.
  pub registered-sends :
      (w : W)
      → Registered core from to dc w w2
      → send_through core from to dc send w ≡ send (("x-webitel-via", to.id) ∷ []) w2
  unfolding send_through prepare_outgoing_send_core_request resolve_internal_contact_identity
  registered-sends w reg =
      let known = Registered-Prepared core from to dc w w2 reg in
      rw known.recipient_known (
        after_create-sends known.headers known.sender
          (answered created (core.create known.headers (contact_request from dc) w))
          known.contact_known known.via_known known.sender_known)

module _ {W : Type 0} (core : Core W) (from to : Peer) (dc : ℤ) where
  -- A method passes its request on from a world where the sender is registered. Where the sender cannot
  -- be registered it fails, and does not pass the request on at all: what it does is then the same
  -- whatever `send` is.
  abbrev pub Sends : W → ((Headers → Io W (Unit {0})) → Result (Unit {0}) × W) → Type 0
  Sends w method =
      ((w2 : W) × Registered core from to dc w w2
        × ((send : Headers → Io W (Unit {0}))
            → method send ≡ send (("x-webitel-via", to.id) ∷ []) w2))
      ⊎ ((¬ ((w2 : W) × Registered core from to dc w w2))
          × ((e : Failure) × (w2 : W) × ((send : Headers → Io W (Unit {0}))
                → method send ≡ (err e, w2))))

  accept : Headers → Io W (Unit {0})
  accept headers w = (ok tt, w)

  failed_not_sent :
      {e : Failure} {w w2 : W} → ◌≡◌ {A = Result (Unit {0}) × W} (err e, w) (ok tt, w2) → ⊥
  failed_not_sent q = err_not_ok (ap (λ r. r.0) q)

  -- Each of the five methods that send a message, for any peers and domain: either the domain is
  -- positive and both subjects are not empty, the gateway has made the sender's contact and then its
  -- via, or says that they exist, and the method does what passing the request on does in the world
  -- after that, with the via as its only metadata; or this is not so, and the method fails and does
  -- not pass the request on.
  pub send_through-Sends : (w : W) → Sends w (λ send. send_through core from to dc send w)
  unfolding accept
  send_through-Sends w = elim (sends_or_fails core from to dc w) [
    | inl sent ↦ inl sent
    | inr (e, w2, same) ↦ inr (
      λ registered.
          failed_not_sent (
            sym (same accept)
            ∙ registered-sends core from to dc registered.0 accept w registered.1),
      (e, w2, same),
    )
  ]
