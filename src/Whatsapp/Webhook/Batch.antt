-- ===== src/Whatsapp/Webhook/Batch.antt =====
-- The order in which HandleWebhook of internal/whatsapp/webhook/webhook.manager.go goes through a
-- notification, and where it stops.
use im_providers_service.Prelude.{
  String, ◌≡◌, refl, ap, ◌∙◌, fun_ext, List, [], ◌∷◌, ◌++◌, map, ◌==◌, string_eq, if◌then◌else◌,
  Bool-cases, inl, inr,
}
use im_providers_service.Prelude.Io.{Io, return, fail, follow}
use im_providers_service.Prelude.Failure.{Failure, Result, ok, err}
use im_providers_service.Whatsapp.Client.{RequestClient}
use im_providers_service.Whatsapp.Events.{Message, MessagesValue, Change, Entry}
use im_providers_service.Whatsapp.Webhook.{
  Json, Handler, unmarshal_value, Subscription, subscription, handle_message, handle_messages,
  events_handled, handle_value, handle_change, handle_changes, handle_entries, handle_webhook,
}

-- What a notification asks for, one after the other: a message to be handled, or a value that cannot be
-- read.
pub data Stage : Type 0 where
  a_message : Subscription → Message → Stage
  broken : Failure → Stage

abbrev pub stages_of_value : String → Result MessagesValue → List Stage
stages_of_value entry_id (err e) = broken e ∷ []
stages_of_value entry_id (ok value) = map (a_message (subscription entry_id value)) value.messages

module _ {W : Type 0} (json : Json) (client : RequestClient) (handler : Handler W) where
  abbrev pub stages_of_change : String → Change → List Stage
  stages_of_change entry_id change =
      if change.field == "messages"
      then stages_of_value entry_id (unmarshal_value json change.value)
      else []

  abbrev pub stages_of_changes : String → List Change → List Stage
  stages_of_changes entry_id [] = []
  stages_of_changes entry_id (change ∷ changes) =
      stages_of_change entry_id change ++ stages_of_changes entry_id changes

  abbrev pub stages : List Entry → List Stage
  stages [] = []
  stages (entry ∷ entries) = stages_of_changes entry.id entry.changes ++ stages entries

  abbrev pub run_stage : Stage → Io W (Unit {0})
  run_stage (broken e) w = fail e w
  run_stage (a_message sub message) w =
      events_handled json client handler (handle_message json client handler sub message w)

  -- One pass, which stops at the first error.
  unfoldable pub run : List Stage → Io W (Unit {0})
  run [] w = return tt w
  run (stage ∷ rest) w = follow (run_stage stage w) (λ _. run rest)

  follow_assoc :
      (r : Result (Unit {0}) × W) (f g : Io W (Unit {0}))
      → follow r (λ _ w1. follow (f w1) (λ _. g)) ≡ follow (follow r (λ _. f)) (λ _. g)
  follow_assoc (ok _, w) f g = refl
  follow_assoc (err e, w) f g = refl

  run-append : (xs ys : List Stage) (w : W) → run (xs ++ ys) w ≡ follow (run xs w) (λ _. run ys)
  unfolding run
  run-append [] ys w = refl
  run-append (stage ∷ xs) ys w =
      ap (follow (run_stage stage w)) (fun_ext (λ _. fun_ext (run-append xs ys)))
      ∙ follow_assoc (run_stage stage w) (run xs) (run ys)

  handled-follow :
      (r : Result (Unit {0}) × W) (f g : Io W (Unit {0}))
      → ((w : W) → events_handled json client handler (f w) ≡ g w)
      → events_handled json client handler (follow r (λ _. f))
        ≡ follow (events_handled json client handler r) (λ _. g)
  handled-follow (ok _, w) f g h = h w
  handled-follow (err e, w) f g h = refl

  run-messages :
      (sub : Subscription) (messages : List Message) (w : W)
      → events_handled json client handler (handle_messages json client handler sub messages w)
        ≡ run (map (a_message sub) messages) w
  unfolding run handle_messages
  run-messages sub [] w = refl
  run-messages sub (m ∷ messages) w =
      handled-follow (handle_message json client handler sub m w) _ _ (run-messages sub messages)

  run-value :
      (entry_id : String) (value : Result MessagesValue) (w : W)
      → handle_value json client handler entry_id value w ≡ run (stages_of_value entry_id value) w
  unfolding run
  run-value entry_id (err e) w = refl
  run-value entry_id (ok value) w = run-messages (subscription entry_id value) value.messages w

  run-change :
      (entry_id : String) (change : Change) (w : W)
      → handle_change json client handler entry_id change w
        ≡ run (stages_of_change entry_id change) w
  unfolding run handle_change
  run-change entry_id change w = elim (Bool-cases (change.field == "messages")) [
    | inl e ↦ rw e (run-value entry_id (unmarshal_value json change.value) w)
    | inr e ↦ rw e refl
  ]

  run-changes :
      (entry_id : String) (changes : List Change) (w : W)
      → handle_changes json client handler entry_id changes w
        ≡ run (stages_of_changes entry_id changes) w
  unfolding run handle_changes
  run-changes entry_id [] w = refl
  run-changes entry_id (change ∷ changes) w =
      rw (run-append (stages_of_change entry_id change) (stages_of_changes entry_id changes) w) (
        rw (run-change entry_id change w) (
          ap (follow (run (stages_of_change entry_id change) w))
            (fun_ext (λ _. fun_ext (run-changes entry_id changes)))))

  run-entries :
      (entries : List Entry) (w : W)
      → handle_entries json client handler entries w ≡ run (stages entries) w
  unfolding run handle_entries
  run-entries [] w = refl
  run-entries (entry ∷ entries) w =
      rw (run-append (stages_of_changes entry.id entry.changes) (stages entries) w) (
        rw (run-changes entry.id entry.changes w) (
          ap (follow (run (stages_of_changes entry.id entry.changes) w))
            (fun_ext (λ _. fun_ext (run-entries entries)))))

  -- For a notification that can be read, the three nested loops of HandleWebhook, with the returns out
  -- of them, do what one pass does over the messages of its changes of the field `messages`, in their
  -- order, a value that cannot be read standing among them: the pass stops at the first error, so no
  -- message after it is handled, and an error of a message comes back as an Internal one.
  pub handle_webhook-run :
      (payload : String) (entries : List Entry) (w : W)
      → json.payload payload ≡ ok entries
      → handle_webhook json client handler payload w ≡ run (stages entries) w
  unfolding handle_webhook
  handle_webhook-run payload entries w e = rw e (run-entries entries w)
