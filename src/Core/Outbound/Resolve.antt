-- ===== src/Core/Outbound/Resolve.antt =====
-- The gate type cache of the outbound handlers beside the database: `resolveSender` of
-- internal/core/handler/outbound_message.go.
use Prim.Native.String
use mathlib.Core.Option.{some-injective}
use im_providers_service.Prelude.{
  String, ℕ, ◌≡◌, refl, sym, ap, ◌∙◌, subst, Option, none, some, List, eq_iff, Bool-cases, inl, inr,
  ◌==◌, string_eq, if◌then◌else◌,
}
use im_providers_service.Prelude.Lru.{Lru}
use im_providers_service.Prelude.Failure.{Failure, Result, ok, err, status, is_not_found}
use im_providers_service.Prelude.Failure
use im_providers_service.Core.Gate.{GateType}
use im_providers_service.Core.Outbound.{
  Sender, Row, Handler, get_type_by_id, keep_type, cached_type, pick_sender, pick_resolved,
  resolve_sender,
}

module _ {W : Type 0} (lru : Lru GateType) (query_type : String → W → Row) (now : W → ℕ)
    (registry : List (String × Sender W)) where
  abbrev S : Type 0
  S = Handler lru.Cache W

  -- The cache holds only what the database would answer now.
  abbrev pub IsCoherent : S → Type 0
  IsCoherent s =
      (j : String) (t : GateType)
      → (lru.get s.type_cache j).0 ≡ some t
      → get_type_by_id (query_type j s.world) ≡ ok t

  -- Resolution by the database alone.
  abbrev pub resolve_uncached : String → W → Result (Sender W)
  resolve_uncached gate_id w = elim (get_type_by_id (query_type gate_id w)) [
    | ok t ↦ pick_sender lru query_type now registry gate_id t
    | err e ↦ err (
        if is_not_found e
        then status Failure.not_found (String.◌++◌ "gate not found: " gate_id)
        else status Failure.internal (String.◌++◌ "failed to resolve gate type for: " gate_id))
  ]

  IsCoherent-add :
      (s : S) (id : String) (t : GateType)
      → IsCoherent s
      → get_type_by_id (query_type id s.world) ≡ ok t
      → IsCoherent (record s { type_cache = lru.add s.type_cache id t })
  IsCoherent-add s id t h e j u got = elim (Bool-cases (id == j)) [
    | inl same ↦
        let same' : id ≡ j = (eq_iff id j).0 same in
        rw (← same') (
          e
          ∙ ap ok (
              some-injective t u (
                sym (lru.get-add_self s.type_cache id t)
                ∙ subst (λ k. (lru.get (lru.add s.type_cache id t) k).0 ≡ some u) (sym same') got)))
    | inr other ↦ h j u (lru.get-add_ne s.type_cache id j t u (λ p. cc ((eq_iff id j).1 p)) got)
  ]

  IsCoherent-get :
      (s : S) (id : String)
      → IsCoherent s
      → IsCoherent (record s { type_cache = (lru.get s.type_cache id).1 })
  IsCoherent-get s id h j u got = h j u (sym (lru.get-get s.type_cache id j) ∙ got)

  -- What a resolution has to do from state `s`.
  pub record Resolves (gate_id : String) (s : S) (r : Result (Sender W) × S) : Type 0 where
    pub sender : r.0 ≡ resolve_uncached gate_id s.world
    pub world : r.1.world ≡ s.world
    pub coherent : IsCoherent r.1

  kept :
      (id : String) (s s' : S) (r : Result GateType)
      → get_type_by_id (query_type id s.world) ≡ r
      → s'.world ≡ s.world
      → IsCoherent s'
      → Resolves id s (
          pick_resolved lru query_type now registry id
            (keep_type lru query_type now registry id r s'))
  unfolding keep_type pick_resolved
  kept id s s' (ok t) e w h = record {
    sender = rw (e, resolve_uncached);
    world = w;
    coherent = IsCoherent-add s' id t h (rw w e);
  }
  kept id s s' (err x) e w h = record { sender = rw (e, resolve_uncached); world = w; coherent = h }

  looked_up :
      (id : String) (s : S) (hit : Option GateType × lru.Cache)
      → lru.get s.type_cache id ≡ hit
      → IsCoherent s
      → Resolves id s (
          pick_resolved lru query_type now registry id
            (cached_type lru query_type now registry id hit s))
  unfolding cached_type
  looked_up id s (some t, c) e h = record {
    sender = unfold pick_resolved in rw (h id t (ap (λ p. p.0) e), resolve_uncached);
    world = unfold pick_resolved in refl;
    coherent = unfold pick_resolved in rw (← ap (λ p. p.1) e) (IsCoherent-get s id h);
  }
  looked_up id s (none, c) e h =
      kept id s (record s { type_cache = c }) (get_type_by_id (query_type id s.world)) refl refl
        (rw (← ap (λ p. p.1) e) (IsCoherent-get s id h))

  -- From a coherent cache, a sender is resolved as the database alone would resolve it, with the
  -- same error where there is one; the world is left as it was and the cache stays coherent.
  pub resolve_sender-uncached :
      (id : String) (s : S)
      → IsCoherent s
      → Resolves id s (resolve_sender lru query_type now registry id s)
  unfolding resolve_sender
  resolve_sender-uncached id s h = looked_up id s (lru.get s.type_cache id) refl h

  -- While a gate's type is in the cache, it is resolved with no look at the database: the result is
  -- the same under any other answer of the type query.
  resolve_sender-cached :
      (query_type' : String → W → Row) (id : String) (t : GateType) (s : S)
      → (lru.get s.type_cache id).0 ≡ some t
      → (resolve_sender lru query_type now registry id s).0
        ≡ (resolve_sender lru query_type' now registry id s).0
  unfolding resolve_sender pick_resolved cached_type pick_sender
  resolve_sender-cached query_type' id t s e = rw e
