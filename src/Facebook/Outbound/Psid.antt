-- ===== src/Facebook/Outbound/Psid.antt =====
-- The PSID cache across sends.
use im_providers_service.Prelude.{
  String, ◌≡◌, refl, sym, ap, ◌∙◌, true, false, Bool-cases, inl, inr, Option, none, some, List, [],
  ◌∷◌, ◌==◌, string_eq,
}
use mathlib.Core.Option.{some-injective}
use im_providers_service.Prelude.Lru.{Lru}
use im_providers_service.Prelude.Failure.{Result, ok, err}
use im_providers_service.Facebook.Model.{FacebookGate}
use im_providers_service.Facebook.Services.{gateway_identity}
use im_providers_service.Facebook.Outbound.{
  Graph, Psids, has_dash, call, keep_psid, found_psid, cached_psid, resolve_psid,
}

module _ {W : Type 0} (lru : Lru String) (graph : Graph W) where
  -- Where a later resolution of the id stands, given the result of this one: on success the answer is
  -- at hand, with no further call.
  abbrev Kept : String → Result String × Psids lru.Cache W → Type 0
  Kept id (err e, s) = Unit
  Kept id (ok psid, s) = (has_dash id ≡ true) → (lru.get s.cache id).0 ≡ some psid

  Kept-keep :
      (id : String) (subjects : List String) (s : Psids lru.Cache W)
      → Kept id (keep_psid lru graph id subjects s)
  Kept-keep id [] s = tt
  Kept-keep id (psid ∷ subjects) s = elim (Bool-cases (psid == "")) [
    | inl e ↦ rw e tt
    | inr e ↦ rw e (λ _. lru.get-add_self s.cache id psid)
  ]

  Kept-found :
      (id : String) (r : Result (List String) × Psids lru.Cache W)
      → Kept id (found_psid lru graph id r)
  Kept-found id (err e, s) = tt
  Kept-found id (ok subjects, s) = Kept-keep id subjects s

  Kept-cached :
      (gate : FacebookGate) (id : String) (hit : Option String × lru.Cache) (s : Psids lru.Cache W)
      → lru.get s.cache id ≡ hit
      → Kept id (cached_psid lru graph gate id hit s)
  Kept-cached gate id (some psid, cache) s q = λ _.
      ap (λ c. (lru.get c id).0) (sym (ap (λ h. h.1) q))
      ∙ lru.get-get s.cache id id
      ∙ ap (λ h. h.0) q
  Kept-cached gate id (none, cache) s q = Kept-found id (
      call lru graph (graph.search_contact (gateway_identity gate) id) (record s { cache = cache }))

  Kept-resolve :
      (gate : FacebookGate) (id : String) (s : Psids lru.Cache W)
      → Kept id (resolve_psid lru graph gate id s)
  unfolding resolve_psid
  Kept-resolve gate id s = elim (Bool-cases (has_dash id)) [
    | inl e ↦ rw e (Kept-cached gate id (lru.get s.cache id) s refl)
    | inr e ↦ rw e (λ d. absurd (cc (d, e)))
  ]

  -- From state `s`, the id resolves to `psid` with no call, for any gate.
  abbrev Settled : String → String → Psids lru.Cache W → Type 0
  Settled id psid s =
      (gate : FacebookGate)
      → ((resolve_psid lru graph gate id s).0 ≡ ok psid)
        × ((resolve_psid lru graph gate id s).1.world ≡ s.world)

  cached_psid-hit :
      (gate : FacebookGate) (id psid : String) (hit : Option String × lru.Cache)
      (s : Psids lru.Cache W)
      → hit.0 ≡ some psid
      → ((cached_psid lru graph gate id hit s).0 ≡ ok psid)
        × ((cached_psid lru graph gate id hit s).1.world ≡ s.world)
  cached_psid-hit gate id psid (some p, c) s h = (ap ok (some-injective p psid h), refl)
  cached_psid-hit gate id psid (none, c) s h = absurd (cc h)

  Kept-Settled :
      (id psid : String) (r : Result String × Psids lru.Cache W)
      → has_dash id ≡ true
      → Kept id r
      → r.0 ≡ ok psid
      → Settled id psid r.1
  unfolding resolve_psid
  Kept-Settled id psid (err e, s) d k h gate = absurd (cc h)
  Kept-Settled id psid (ok p, s) d k h gate =
      rw d (cached_psid-hit gate id psid (lru.get s.cache id) s (k d ∙ cc h))

  resolve_psid-plain :
      (gate : FacebookGate) (id : String) (s : Psids lru.Cache W)
      → has_dash id ≡ false
      → resolve_psid lru graph gate id s ≡ (ok id, s)
  unfolding resolve_psid
  resolve_psid-plain gate id s d = rw d

  -- A contact that was resolved once is resolved to the same PSID right after, for any gate, and with
  -- no call: the world stays as it is.
  pub resolve_psid-again :
      (gate gate' : FacebookGate) (id psid : String) (s : Psids lru.Cache W)
      → (resolve_psid lru graph gate id s).0 ≡ ok psid
      → ((resolve_psid lru graph gate' id (resolve_psid lru graph gate id s).1).0 ≡ ok psid)
        × ((resolve_psid lru graph gate' id (resolve_psid lru graph gate id s).1).1.world
            ≡ (resolve_psid lru graph gate id s).1.world)
  resolve_psid-again gate gate' id psid s h = elim (Bool-cases (has_dash id)) [
    | inl d ↦
        Kept-Settled id psid (resolve_psid lru graph gate id s) d (Kept-resolve gate id s) h gate'
    | inr d ↦
        let after = resolve_psid-plain gate' id (resolve_psid lru graph gate id s).1 d in
        (
          ap (λ r. r.0) after ∙ sym (ap (λ r. r.0) (resolve_psid-plain gate id s d)) ∙ h,
          ap (λ r. r.1.world) after,
        )
  ]
