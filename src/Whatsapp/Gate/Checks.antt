-- ===== src/Whatsapp/Gate/Checks.antt =====
-- The three checks of a gate, by what the services answer: performExternalWhatsAppAccountValidation of
-- internal/whatsapp/gate/gate.usecase.go.
use im_providers_service.Prelude.{
  sym, String, ◌≡◌, refl, ap, subst, ◌∙◌, Option, none, some, List, [], ◌∷◌,
}
use im_providers_service.Prelude.Failure.{Result, ok, err}
use im_providers_service.Whatsapp.Client.{
  RequestClient, ApiRequest, new_api_request, add_field, add_query_param, execute,
}
use im_providers_service.Whatsapp.Account.{Contact}
use im_providers_service.Whatsapp.Messaging.{MessageSendError, StatusResponse}
use im_providers_service.Whatsapp.Gate.{
  Gate, Check, bound_contact, account, token, Schedule, contact_account_token,
  contact_token_account, account_contact_token, account_token_contact, token_contact_account,
  token_account_contact, in_order, Services, status_of, read_status, answered, contact_found, check,
  first_error, run_checks, perform_external_validation,
}

module _ {W : Type 0} (api : Services W) (gate : Gate) (client : RequestClient) where
  -- the gate with its client
  abbrev pub ready : Gate
  ready = record gate { waba = record gate.waba { client = some client } }

  -- The request of each of the two checks that ask Meta.
  abbrev phone_asked : ApiRequest
  phone_asked =
      add_field (record { name = "verified_name"; filters = [] })
        (add_field (record { name = "display_phone_number"; filters = [] })
          (add_field (record { name = "id"; filters = [] })
            (new_api_request client gate.waba.phone_number_id "GET")))

  abbrev token_asked : ApiRequest
  token_asked =
      add_query_param "input_token" client.access_token (new_api_request client "debug_token" "GET")

  -- Meta answers with a status that has no error.
  abbrev Accepted : Result String → Type 0
  Accepted answer =
      (raw : String) × (response : StatusResponse) × (answer ≡ ok raw)
      × (api.status_response raw ≡ ok response)
      × (response.error ≡ none)

  -- What the services answer to a check that succeeds, and the world that they leave.
  abbrev pub Passes : Check → W → Type 0
  Passes bound_contact w = (contact : Contact) × ((api.search gate.contact w).0 ≡ ok (some contact))
  Passes account w = Accepted (execute api.http phone_asked w).0
  Passes token w = Accepted (execute api.http token_asked w).0

  abbrev pub after : Check → W → W
  after bound_contact w = (api.search gate.contact w).1
  after account w = (execute api.http phone_asked w).1
  after token w = (execute api.http token_asked w).1

  -- All three, in the order in which they end.
  abbrev pub ended : Schedule → List Check
  ended contact_account_token = bound_contact ∷ account ∷ token ∷ []
  ended contact_token_account = bound_contact ∷ token ∷ account ∷ []
  ended account_contact_token = account ∷ bound_contact ∷ token ∷ []
  ended account_token_contact = account ∷ token ∷ bound_contact ∷ []
  ended token_contact_account = token ∷ bound_contact ∷ account ∷ []
  ended token_account_contact = token ∷ account ∷ bound_contact ∷ []

  abbrev pub AllPass : List Check → W → Type 0
  AllPass [] w = Unit
  AllPass (c ∷ checks) w = Passes c w × AllPass checks (after c w)

  abbrev pub after_all : List Check → W → W
  after_all [] w = w
  after_all (c ∷ checks) w = after_all checks (after c w)

  in_order-ended : (s : Schedule) → in_order s ≡ ended s
  unfolding in_order
  in_order-ended contact_account_token = refl
  in_order-ended contact_token_account = refl
  in_order-ended account_contact_token = refl
  in_order-ended account_token_contact = refl
  in_order-ended token_contact_account = refl
  in_order-ended token_account_contact = refl

  no_error : (e : Option MessageSendError) → status_of e ≡ ok tt → e ≡ none
  no_error none h = refl
  no_error (some e) h = absurd (cc h)

  read-ok :
      (r : Result StatusResponse)
      → read_status r ≡ ok tt
      → (response : StatusResponse) × (r ≡ ok response) × (response.error ≡ none)
  read-ok (err e) h = absurd (cc h)
  read-ok (ok response) h = (response, refl, no_error response.error h)

  answered-Accepted :
      (message : String) (r : Result String × W) → (answered api message r).0 ≡ ok tt → Accepted r.0
  answered-Accepted message (err e, w) h = absurd (cc h)
  answered-Accepted message (ok raw, w) h =
      let (response, read, fine) = read-ok (api.status_response raw) h in
      (raw, response, refl, read, fine)

  answered-world : (message : String) (r : Result String × W) → (answered api message r).1 ≡ r.1
  answered-world message (err e, w) = refl
  answered-world message (ok raw, w) = refl

  found-contact :
      (r : Result (Option Contact) × W)
      → (contact_found api r).0 ≡ ok tt
      → (contact : Contact) × (r.0 ≡ ok (some contact))
  found-contact (err e, w) h = absurd (cc h)
  found-contact (ok none, w) h = absurd (cc h)
  found-contact (ok (some contact), w) h = (contact, refl)

  found-world : (r : Result (Option Contact) × W) → (contact_found api r).1 ≡ r.1
  found-world (err e, w) = refl
  found-world (ok none, w) = refl
  found-world (ok (some contact), w) = refl

  check-Passes : (c : Check) (w : W) → (check api ready c w).0 ≡ ok tt → Passes c w
  unfolding check
  check-Passes bound_contact w h = found-contact (api.search gate.contact w) h
  check-Passes account w h = answered-Accepted _ (execute api.http phone_asked w) h
  check-Passes token w h = answered-Accepted _ (execute api.http token_asked w) h

  check-after : (c : Check) (w : W) → (check api ready c w).1 ≡ after c w
  unfolding check
  check-after bound_contact w = found-world (api.search gate.contact w)
  check-after account w =
      answered-world "validating WhatsApp phone" (execute api.http phone_asked w)
  check-after token w = answered-world "token is invalid" (execute api.http token_asked w)

  first_error-ok :
      (r rest : Result (Unit {0})) → first_error api r rest ≡ ok tt → (r ≡ ok tt) × (rest ≡ ok tt)
  first_error-ok (ok _) rest h = (refl, h)
  first_error-ok (err e) rest h = absurd (cc h)

  run-AllPass :
      (checks : List Check) (w : W) → (run_checks api ready checks w).0 ≡ ok tt → AllPass checks w
  unfolding run_checks
  run-AllPass [] w h = tt
  run-AllPass (c ∷ checks) w h =
      let (this, others) = first_error-ok (check api ready c w).0 _ h in
      (
        check-Passes c w this,
        subst (AllPass checks) (check-after c w)
            (run-AllPass checks (check api ready c w).1 others),
      )

  run-after : (checks : List Check) (w : W) → (run_checks api ready checks w).1 ≡ after_all checks w
  unfolding run_checks
  run-after [] w = refl
  run-after (c ∷ checks) w =
      run-after checks (check api ready c w).1 ∙ ap (after_all checks) (check-after c w)

  -- A validation without an error has made all three checks, and each has passed.
  pub validation-AllPass :
      (w : W)
      → (perform_external_validation api ready w).0 ≡ ok tt
      → AllPass (ended (api.schedule w)) w
  unfolding perform_external_validation
  validation-AllPass w h =
      subst (λ checks. AllPass checks w) (in_order-ended (api.schedule w))
        (run-AllPass (in_order (api.schedule w)) w h)

  pub validation-after :
      (w : W) → (perform_external_validation api ready w).1 ≡ after_all (ended (api.schedule w)) w
  unfolding perform_external_validation
  validation-after w =
      run-after (in_order (api.schedule w)) w
      ∙ ap (λ checks. after_all checks w) (in_order-ended (api.schedule w))

  -- And the other way round.
  response-ok :
      (r : Result StatusResponse) (response : StatusResponse)
      → r ≡ ok response
      → response.error ≡ none
      → read_status r ≡ ok tt
  response-ok r response read fine = rw (read, fine) refl

  Accepted-answered :
      (message : String) (r : Result String × W) → Accepted r.0 → (answered api message r).0 ≡ ok tt
  Accepted-answered message (err e, w) (raw, response, q, read, fine) = absurd (cc q)
  Accepted-answered message (ok given, w) (raw, response, q, read, fine) =
      let same : raw ≡ given = cc q in
      response-ok (api.status_response given) response
        (subst (λ t. api.status_response t ≡ ok response) same read) fine

  contact-found :
      (r : Result (Option Contact) × W) (contact : Contact)
      → r.0 ≡ ok (some contact)
      → (contact_found api r).0 ≡ ok tt
  contact-found (err e, w) contact q = absurd (cc q)
  contact-found (ok none, w) contact q = absurd (cc q)
  contact-found (ok (some c), w) contact q = refl

  Passes-check : (c : Check) (w : W) → Passes c w → (check api ready c w).0 ≡ ok tt
  unfolding check
  Passes-check bound_contact w h = contact-found (api.search gate.contact w) h.0 h.1
  Passes-check account w h = Accepted-answered _ (execute api.http phone_asked w) h
  Passes-check token w h = Accepted-answered _ (execute api.http token_asked w) h

  AllPass-run :
      (checks : List Check) (w : W) → AllPass checks w → (run_checks api ready checks w).0 ≡ ok tt
  unfolding run_checks
  AllPass-run [] w h = refl
  AllPass-run (c ∷ checks) w h = rw (Passes-check c w h.0) (
      AllPass-run checks (check api ready c w).1
        (subst (AllPass checks) (sym (check-after c w)) h.1))

  pub AllPass-validation :
      (w : W)
      → AllPass (ended (api.schedule w)) w
      → (perform_external_validation api ready w).0 ≡ ok tt
  unfolding perform_external_validation
  AllPass-validation w h =
      AllPass-run (in_order (api.schedule w)) w
        (subst (λ checks. AllPass checks w) (sym (in_order-ended (api.schedule w))) h)
