-- ===== src/Facebook/Inbound/Contacts.antt =====
-- How the pipeline of one messaging event depends on its sender's contact.
use im_providers_service.Prelude.{
  String, ◌≡◌, refl, true, false, ◌||◌, ◌==◌, string_eq, if◌then◌else◌,
}
use im_providers_service.Prelude.Io.{Io, follow}
use im_providers_service.Prelude.Failure.{Result, ok, err, wrap}
use im_providers_service.Facebook.Model.{Messaging, UserProfile, ExternalUser, FacebookGate}
use im_providers_service.Facebook.Services.{
  Contact, CreateContactRequest, Services, provider_type, gateway_identity,
}
use im_providers_service.Facebook.Contacts.{
  to_external_user, is_already_exists, is_hit, settled, remember, ensure_contact, sync_contact,
  synced_profile, fetch_and_sync,
}
use im_providers_service.Facebook.Inbound.{process_message, is_echo, is_empty}
use im_providers_service.Prelude.Keeps.{if-keeps}
use im_providers_service.Facebook.Inbound.Addressing.{SyncKeeps, fetch_and_sync-keeps}

module _ {W : Type 0} (api : Services W) where
  -- An event that is not to be processed: no sender, no content, or an echo of the page's own message.
  abbrev pub IsIgnored : Messaging → Type 0
  IsIgnored msg =
      (msg.sender == "" || is_empty msg.message msg.postback || is_echo msg.message) ≡ true

  -- The gateway refuses to make the contact, for another reason than that there is one.
  abbrev pub IsRefused : Result Contact → Type 0
  IsRefused (ok c) = ⊥
  IsRefused (err e) = is_already_exists e ≡ false

  -- A refusal of `sync_contact` for this sender, in any world: the user is not known, and the
  -- gateway does not make the contact.
  pub record Refuses (gate : FacebookGate) (psid : String) : Type 0 where
    pub unknown : (u : ExternalUser) (w : W) → u.id ≡ psid → is_hit (api.is_known u w).0 ≡ false
    pub contact :
        (r : CreateContactRequest) (w : W)
        → r.subject ≡ psid
        → IsRefused (api.create_contact (gateway_identity gate) r w).0

  -- Is the result an error?
  abbrev pub IsErr : {A : Type 0} → Result A → Type 0
  IsErr (ok a) = ⊥
  IsErr (err e) = Unit

  follow-IsErr :
      {A B : Type 0} (r : Result A × W) (f : A → Io W B) → IsErr r.0 → IsErr (follow r f).0
  follow-IsErr (ok a, w) f h = elim h [ ]
  follow-IsErr (err e, w) f h = tt

  settled-IsErr : (user : ExternalUser) (r : Result Contact) → IsRefused r → IsErr (settled user r)
  settled-IsErr user (ok c) h = elim h [ ]
  settled-IsErr user (err e) h = rw h tt

  sync_contact-IsErr :
      (gate : FacebookGate) (psid : String) (profile : UserProfile) (w : W)
      → Refuses gate psid
      → IsErr (sync_contact api gate psid profile w).0
  unfolding sync_contact ensure_contact
  sync_contact-IsErr gate psid profile w h =
      let user = to_external_user psid profile in
      let w1 = (api.is_known user w).1 in
      rw (h.unknown user w refl) (
        follow-IsErr (ensure_contact api (gateway_identity gate) user w1)
          (remember api gate psid profile) (settled-IsErr user _ (h.contact _ w1 refl)))

  fetch_and_sync-IsErr :
      (gate : FacebookGate) (psid : String) (w : W)
      → Refuses gate psid
      → IsErr (fetch_and_sync api gate psid w).0
  unfolding fetch_and_sync
  fetch_and_sync-IsErr gate psid w h = fetched (api.get_user_profile psid gate.page_token w)
    where
      fetched : (r : Result UserProfile × W) → IsErr (synced_profile api gate psid r).0
      fetched (err e, w') = tt
      fetched (ok profile, w') = wrapped_err _ (sync_contact-IsErr gate psid profile w' h)
        where
          wrapped_err : (r : Result Contact) → IsErr r → IsErr (wrap "sync contact" r)
          wrapped_err (ok c) k = elim k [ ]
          wrapped_err (err e) k = tt

  follow-stops :
      {A B : Type 0} (P : W → Type 0) (r : Result A × W) (f : A → Io W B)
      → IsErr r.0
      → P r.1
      → P (follow r f).1
  follow-stops P (ok a, w) f h p = elim h [ ]
  follow-stops P (err e, w) f h p = p

  -- A sender who is not known and whose contact the gateway refuses gets nothing delivered: the run
  -- fails or ignores the event, and any property of the world that the profile and contact calls
  -- keep is kept, whatever the calls that deliver do.
  pub process_message-refused :
      (P : W → Type 0) (gate : FacebookGate) (msg : Messaging) (w : W)
      → Refuses gate msg.sender
      → SyncKeeps api P gate msg.sender
      → P w
      → P (process_message api gate msg w).1
  unfolding process_message
  process_message-refused P gate msg w h keeps p =
      if-keeps P _ (ok tt, w) _ p
        (follow-stops P (fetch_and_sync api gate msg.sender w) _
          (fetch_and_sync-IsErr gate msg.sender w h)
          (fetch_and_sync-keeps api P gate msg.sender keeps w p))

-- The gateway with `AlreadyExists` answered by the stub of the contact.
abbrev tolerant_answer : CreateContactRequest → Result Contact → Result Contact
tolerant_answer r (ok c) = ok c
tolerant_answer r (err e) =
    if is_already_exists e then ok (record { sub = r.subject; iss = provider_type }) else err e

abbrev pub tolerant : {W : Type 0} → Services W → Services W
tolerant api = record api {
  create_contact = λ identity r w.
      let (answer, w') = api.create_contact identity r w in (tolerant_answer r answer, w');
}
