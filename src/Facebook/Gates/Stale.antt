-- ===== src/Facebook/Gates/Stale.antt =====
-- The gate cache after the store's writes.
use Prim.Native.String
use im_providers_service.Prelude.{String, ◌≡◌, ◌≢◌, refl, sym, ◌∙◌, true, List, ◌∷◌, string_eq}
use text.Mathlib.TextLemmas.{nil-append, append_assoc, append_cancel_right, concat-ne-nil}
use im_providers_service.Prelude.Lru.{Lru}
use im_providers_service.Prelude.Io.{Io}
use im_providers_service.Prelude.Failure.{Result, ok, err}
use im_providers_service.Facebook.Model.{FacebookGate, WebhookRequest, Entry}
use im_providers_service.Facebook.Services.{Services}
use im_providers_service.Facebook.Gates.{
  GateState, Shared, gate_key, webhook_uri, is_disabled, handle_webhook, resolve_gate, process_for,
  update, with_token, after_write,
}

-- A gate's key is never its page alone.
gate_key-ne : (uri page : String) → page ≢ gate_key uri page
unfolding gate_key
gate_key-ne uri page p =
    let whole : String.◌++◌ "" page ≡ String.◌++◌ (String.◌++◌ uri ":") page =
      nil-append page ∙ p ∙ sym (append_assoc uri ":" page) in
    concat-ne-nil _ uri (sym (append_cancel_right "" (String.◌++◌ uri ":") page whole))

module _ {W : Type 0} (lru : Lru GateState) (encrypt : String → Result String)
    (write : FacebookGate → String → Io W (Unit {0})) (delete : String → Io W String) where
  updated :
      (g : FacebookGate) (uri : String) (s : Shared lru.Cache W)
      → (lru.get (update lru encrypt write delete g s).1.cache (gate_key uri g.page_id)).0
        ≡ (lru.get s.cache (gate_key uri g.page_id)).0
  unfolding update
  updated g uri s = sealed (encrypt g.page_token)
    where
      written :
          (r : Result (Unit {0}) × W)
          → (lru.get
              (after_write lru encrypt write delete g r s).1.cache
              (gate_key uri g.page_id)).0
            ≡ (lru.get s.cache (gate_key uri g.page_id)).0
      written (err e, w) = refl
      written (ok t, w) =
          lru.get-remove_ne s.cache g.page_id (gate_key uri g.page_id) (gate_key-ne uri g.page_id)

      sealed :
          (r : Result String)
          → (lru.get (with_token lru encrypt write delete g r s).1.cache (gate_key uri g.page_id)).0
            ≡ (lru.get s.cache (gate_key uri g.page_id)).0
      sealed (err e) = refl
      sealed (ok token) = written (write g token s.world)

  -- A gate that the cache has as disabled stays dropped through an update, even one that enables it:
  -- the store drops the cache's entry of the page, but the webhook looks under address and page. The
  -- next webhook of that gate still does nothing, whatever the database now says.
  pub update-stays_disabled :
      (api : Services W) (select_gate : String → String → W → Result FacebookGate)
      (g : FacebookGate) (uri : String) (evt : WebhookRequest) (e : Entry) (es : List Entry)
      (s : Shared lru.Cache W)
      → evt.entry ≡ e ∷ es
      → e.id ≡ g.page_id
      → is_disabled (lru.get s.cache (gate_key (webhook_uri uri) g.page_id)).0 ≡ true
      → (let after = (update lru encrypt write delete g s).1 in
          let (result, final) = handle_webhook lru api select_gate uri (ok evt) after in
          (result ≡ ok tt) × (final.world ≡ after.world))
  unfolding resolve_gate process_for
  update-stays_disabled api select_gate g uri evt e es s p q off =
      let still : is_disabled
            (lru.get (update lru encrypt write delete g s).1.cache
              (gate_key (webhook_uri uri) g.page_id)).0
          ≡ true =
        rw (updated g (webhook_uri uri) s) off in
      (rw (p, q, still), rw (p, q, still))
