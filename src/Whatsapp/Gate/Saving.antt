-- ===== src/Whatsapp/Gate/Saving.antt =====
-- What has been checked by the time that a gate of internal/whatsapp/gate/gate.usecase.go is saved.
use im_providers_service.Prelude.{
  String, ◌≡◌, refl, sym, ap, none, some, [], ◌∷◌, ◌⊎◌, inl, inr, ◌∙◌,
}
use im_providers_service.Prelude.Int.{ℤ}
use im_providers_service.Prelude.Io.{Io, follow}
use im_providers_service.Prelude.Failure.{Failure, Result, ok, err}
use im_providers_service.Whatsapp.Client.{RequestClient, with_access_token, new_request_client}
use im_providers_service.Whatsapp.Gate.{
  Gate, validate, Services, built, set_up_client, perform_external_validation, sealed_gate,
  pre_save, save_client, save_valid, save_with,
}
use im_providers_service.Whatsapp.Gate.Valid.{IsValid, validate-IsValid, IsValid-validate}
use im_providers_service.Whatsapp.Gate.Checks.{
  ready, ended, AllPass, after_all, validation-AllPass, validation-after, AllPass-validation,
}

module _ {W : Type 0} (api : Services W) (domain : ℤ) (gate : Gate) where
  -- the gate that is validated
  abbrev own : Gate
  own = record gate { dc = domain }

  -- What is known of a gate that is stored: it is valid in the session's domain, there is a client for
  -- its token, each of the three checks has passed, and the cipher has sealed its token.
  pub record Checked (w : W) (stored : Gate) (w2 : W) : Type 0 where
    pub valid : IsValid own
    pub client : RequestClient
    pub has_client : new_request_client (with_access_token gate.waba.access_token ∷ []) ≡ ok client
    pub passed : AllPass api own client (ended api own client (api.schedule w)) w
    pub sealed : String
    pub encrypted :
        api.encrypt gate.waba.access_token
          (after_all api own client (ended api own client (api.schedule w)) w)
        ≡ (ok sealed, w2)
    pub stored_as : stored ≡ record gate {
      dc = domain;
      waba = record gate.waba { id = ""; access_token_encrypted = sealed; client = none };
    }

  abbrev StoresOrFails : W → ((Gate → Io W Gate) → Result Gate × W) → Type 0
  StoresOrFails w method =
      ((stored : Gate) × (w2 : W) × Checked w stored w2
        × ((store : Gate → Io W Gate) → method store ≡ store stored w2))
      ⊎ ((e : Failure) × (w2 : W) × ((store : Gate → Io W Gate) → method store ≡ (err e, w2)))

  module _ (w : W) (valid : validate own ≡ ok tt) (client : RequestClient)
      (has_client : new_request_client (with_access_token gate.waba.access_token ∷ [])
        ≡ ok client) where
    abbrev left : W
    left = (perform_external_validation api (ready api own client) w).1

    sealed-Stores :
        AllPass api own client (ended api own client (api.schedule w)) w
        → (r : Result String × W) → api.encrypt gate.waba.access_token left ≡ r
        → StoresOrFails w (follow (sealed_gate api (ready api own client) r))
    sealed-Stores passed (err e, w2) q = inr (_, w2, λ store. refl)
    sealed-Stores passed (ok sealed, w2) q = inl (
      _,
      w2,
      record {
        valid = validate-IsValid own valid;
        client = client;
        has_client = has_client;
        passed = passed;
        sealed = sealed;
        encrypted =
            ap (api.encrypt gate.waba.access_token) (sym (validation-after api own client w)) ∙ q;
        stored_as = refl;
      },
      λ store. refl,
    )

    checked-Stores :
        (r : Result (Unit {0}))
        → (perform_external_validation api (ready api own client) w).0 ≡ r
        → StoresOrFails w (λ store.
          follow (r, left) (λ _ w1. follow (pre_save api (ready api own client) w1) store))
    unfolding pre_save
    checked-Stores (err e) q = inr (e, left, λ store. refl)
    checked-Stores (ok _) q =
        sealed-Stores (validation-AllPass api own client w q)
          (api.encrypt gate.waba.access_token left) refl

  client-Stores :
      (w : W)
      → validate own ≡ ok tt
      → (r : Result RequestClient)
      → new_request_client (with_access_token gate.waba.access_token ∷ []) ≡ r
      → StoresOrFails w (λ store. save_client api store (built own r) w)
  client-Stores w valid (err e) c = inr (e, w, λ store. refl)
  client-Stores w valid (ok client) c =
      checked-Stores w valid client c (perform_external_validation api (ready api own client) w).0
        refl

  valid-Stores :
      (w : W) (r : Result (Unit {0}))
      → validate own ≡ r
      → StoresOrFails w (λ store. save_valid api store own r w)
  unfolding set_up_client
  valid-Stores w (err e) v = inr (e, w, λ store. refl)
  valid-Stores w (ok _) v =
      client-Stores w v (new_request_client (with_access_token gate.waba.access_token ∷ [])) refl

  stores_or_fails : (w : W) → StoresOrFails w (λ store. save_with api store (some domain) gate w)
  unfolding save_with
  stores_or_fails w = valid-Stores w (validate own) refl

  validated :
      (w : W) (client : RequestClient)
      → AllPass api own client (ended api own client (api.schedule w)) w
      → perform_external_validation api (ready api own client) w
        ≡ (ok tt, after_all api own client (ended api own client (api.schedule w)) w)
  validated w client passed =
      ap (λ r. (r, (perform_external_validation api (ready api own client) w).1))
        (AllPass-validation api own client w passed)
      ∙ ap (λ v. (ok tt, v)) (validation-after api own client w)

  -- A checked gate is stored.
  Checked-stored :
      (w : W) (stored : Gate) (w2 : W)
      → Checked w stored w2
      → (store : Gate → Io W Gate) → save_with api store (some domain) gate w ≡ store stored w2
  unfolding save_with set_up_client pre_save
  Checked-stored w stored w2 c store =
      rw
        (
          IsValid-validate own c.valid,
          c.has_client,
          validated w c.client c.passed,
          c.encrypted,
          c.stored_as,
        )
        refl

  -- A save stores a checked gate, from the world after the checks. Where the gate does not pass it fails
  -- and stores nothing: what it does is then the same whatever `store` is.
  abbrev pub Stores : W → ((Gate → Io W Gate) → Result Gate × W) → Type 0
  Stores w method =
      ((stored : Gate) × (w2 : W) × Checked w stored w2
        × ((store : Gate → Io W Gate) → method store ≡ store stored w2))
      ⊎ ((¬ ((stored : Gate) × (w2 : W) × Checked w stored w2))
          × ((e : Failure) × (w2 : W) × ((store : Gate → Io W Gate) → method store ≡ (err e, w2))))

  accept : Gate → Io W Gate
  accept saved w = (ok saved, w)

  failed_not_stored :
      {e : Failure} {g : Gate} {w w2 : W} → ◌≡◌ {A = Result Gate × W} (err e, w) (ok g, w2) → ⊥
  failed_not_stored q = different (ap (λ r. r.0) q)
    where
      different : {e : Failure} {g : Gate} → err e ≡ ok g → ⊥
      different q = cc q

  -- A save with a session in this domain either passes the gate in that domain to the repository, with
  -- its token sealed by the cipher, in the world after the checks: its name, numbers, business, token
  -- and contact are then not blank, its type is WhatsApp's, its domain is positive, a client could be set
  -- up for its token, and the bound contact was found and Meta has accepted the number and the token, in
  -- the order in which the three checks ended. Or one of these does not hold, and it fails and passes
  -- nothing to the repository.
  pub save_with-Stores : (w : W) → Stores w (λ store. save_with api store (some domain) gate w)
  unfolding accept
  save_with-Stores w = elim (stores_or_fails w) [
    | inl stored ↦ inl stored
    | inr (e, w2, same) ↦ inr (
      λ checked.
          failed_not_stored
            (sym (same accept) ∙ Checked-stored w checked.0 checked.1 checked.2 accept),
      (e, w2, same),
    )
  ]
