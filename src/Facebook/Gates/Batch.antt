-- ===== src/Facebook/Gates/Batch.antt =====
-- A webhook with many messages.
use im_providers_service.Prelude.{
  String, ◌≡◌, refl, ap, Bool, true, false, not, ◌||◌, Bool-cases, inl, inr, List, [], ◌∷◌, ◌==◌,
  string_eq, if◌then◌else◌,
}
use im_providers_service.Prelude.Lru.{Lru}
use im_providers_service.Prelude.Io.{follow}
use im_providers_service.Prelude.Failure.{Result, ok, err}
use im_providers_service.Facebook.Model.{
  FacebookGate, Messaging, Entry, WebhookRequest, all_messages,
}
use im_providers_service.Facebook.Services.{Services}
use im_providers_service.Facebook.Inbound.{process_message, is_echo, is_empty}
use im_providers_service.Facebook.Gates.{
  GateState, Shared, keep_gate, resolve_gate, process_all, process_for, handle_webhook,
  handle_entries, is_disabled, gate_key, webhook_uri,
}

-- Is the message from a user, and does it hold something to route?
abbrev pub is_live : Messaging → Bool
is_live m = not (m.sender == "" || is_empty m.message m.postback || is_echo m.message)

-- Every live message runs through the pipeline, in order, in the world that the ones before it have
-- left, whether they have failed or not.
pub run_live : {W : Type 0} → Services W → FacebookGate → List Messaging → W → W
run_live api gate [] w = w
run_live api gate (m ∷ ms) w =
    run_live api gate ms (if is_live m then (process_message api gate m w).1 else w)

process_message-ignored :
    {W : Type 0} (api : Services W) (gate : FacebookGate) (m : Messaging) (w : W)
    → is_live m ≡ false
    → process_message api gate m w ≡ (ok tt, w)
unfolding process_message
process_message-ignored api gate m w h =
    elim (Bool-cases (m.sender == "" || is_empty m.message m.postback || is_echo m.message)) [
      | inl e ↦ rw e
      | inr e ↦ absurd (cc (h, ap not e))
    ]

process_all-run_live :
    {W : Type 0} (api : Services W) (gate : FacebookGate) (ms : List Messaging) (w : W)
    → process_all api gate ms w ≡ run_live api gate ms w
unfolding process_all run_live
process_all-run_live api gate [] w = refl
process_all-run_live api gate (m ∷ ms) w = elim (Bool-cases (is_live m)) [
  | inl e ↦ rw e (process_all-run_live api gate ms (process_message api gate m w).1)
  | inr e ↦ rw (e, process_message-ignored api gate m w e) (process_all-run_live api gate ms w)
]

-- The webhook by the database alone: every live message of the event, in order, through the
-- pipeline of the gate of the first entry, if that gate is enabled.
module _ {W : Type 0} (lru : Lru GateState) (api : Services W)
    (select_gate : String → String → W → Result FacebookGate) where
  abbrev pub run_gate : List Messaging → Result FacebookGate → W → Result (Unit {0}) × W
  run_gate ms (err e) w = (err e, w)
  run_gate ms (ok gate) w = (ok tt, if gate.enabled then run_live api gate ms w else w)

  abbrev pub handle_uncached : String → Result WebhookRequest → W → Result (Unit {0}) × W
  handle_uncached uri (err e) w = (ok tt, w)
  handle_uncached uri (ok evt) w = elim evt.entry [
    | [] ↦ (ok tt, w)
    | e ∷ es ↦ run_gate (all_messages evt) (select_gate e.id (webhook_uri uri) w) w
  ]

  -- What the cache says is disabled is so in the database.
  abbrev pub IsCurrent : Shared lru.Cache W → Type 0
  IsCurrent s =
      (uri page : String)
      → is_disabled (lru.get s.cache (gate_key uri page)).0 ≡ true
      → (g : FacebookGate) × (select_gate page uri s.world ≡ ok g) × (g.enabled ≡ false)

  -- The result and the world of a run, without its cache.
  abbrev pub visible : Result (Unit {0}) × Shared lru.Cache W → Result (Unit {0}) × W
  visible (r, s) = (r, s.world)

  queried :
      (ms : List Messaging) (uri page : String) (c : lru.Cache) (w : W) (r : Result FacebookGate)
      → visible (
          follow
            (keep_gate lru api select_gate uri page r (record { cache = c; world = w }))
            (process_for lru api select_gate ms))
        ≡ run_gate ms r w
  unfolding process_for
  queried ms uri page c w (err e) = refl
  queried ms uri page c w (ok g) = elim (Bool-cases g.enabled) [
    | inl e ↦ rw (process_all-run_live api g ms w, e)
    | inr e ↦ rw e
  ]

  resolved :
      (ms : List Messaging) (uri page : String) (s : Shared lru.Cache W)
      → IsCurrent s
      → visible (
          follow (resolve_gate lru api select_gate uri page s) (process_for lru api select_gate ms))
        ≡ run_gate ms (select_gate page uri s.world) s.world
  unfolding resolve_gate process_for
  resolved ms uri page s h =
      elim (Bool-cases (is_disabled (lru.get s.cache (gate_key uri page)).0)) [
        | inl e ↦ let (g, q, off) = h uri page e in rw (e, q, off)
        | inr e ↦ rw e (
            queried ms uri page (lru.get s.cache (gate_key uri page)).1 s.world
              (select_gate page uri s.world))
      ]

  -- While every gate that the cache has as disabled is disabled in the database, a webhook does
  -- what the database alone would have it do: it fails only if the query of its first entry's gate
  -- fails, and otherwise runs every live message, in order, whatever happens to the ones before it;
  -- messages without a sender or content and echoes change nothing, as does every message of a
  -- disabled gate.
  pub handle_webhook-uncached :
      (uri : String) (evt : Result WebhookRequest) (s : Shared lru.Cache W)
      → IsCurrent s
      → visible (handle_webhook lru api select_gate uri evt s) ≡ handle_uncached uri evt s.world
  handle_webhook-uncached uri (err e) s h = refl
  handle_webhook-uncached uri (ok evt) s h = entries evt.entry
    where
      entries :
          (es : List Entry)
          → visible (handle_entries lru api select_gate uri (all_messages evt) es s) ≡ elim es [
            | [] ↦ (ok tt, s.world)
            | e ∷ es ↦
                run_gate (all_messages evt) (select_gate e.id (webhook_uri uri) s.world) s.world
          ]
      entries [] = refl
      entries (e ∷ es) = resolved (all_messages evt) (webhook_uri uri) e.id s h
