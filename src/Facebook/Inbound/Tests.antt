-- ===== src/Facebook/Inbound/Tests.antt =====
-- A page and its services, for the theorems on one event.
use im_providers_service.Prelude.{◌≡◌, refl, true, false, none, some, List, [], ◌∷◌, All}
use im_providers_service.Prelude.Int.{pos}
use im_providers_service.Prelude.Failure.{Result, ok, err, plain, status, already_exists}
use im_providers_service.Core.Message.{SendTextRequest}
use im_providers_service.Core.Gate.{status_active}
use im_providers_service.Facebook.Model.{FacebookGate, Messaging}
use im_providers_service.Facebook.Services.{Contact, Services, peers_of}
use im_providers_service.Facebook.Inbound.{process_message}
use im_providers_service.Facebook.Contacts.{is_already_exists}
use im_providers_service.Facebook.Inbound.Contacts.{process_message-refused}

abbrev gate : FacebookGate
gate = record {
  id = "g1";
  domain_id = pos 7;
  peer = record { sub = "bot"; iss = "bots"; via = none; name = ""; id = "" };
  name = "page";
  meta_app_id = "a1";
  page_id = "p1";
  page_name = "page";
  page_token = "token";
  enabled = true;
  status = status_active;
}

abbrev greeting : Messaging
greeting = record {
  sender = "u1";
  recipient = "p1";
  timestamp = pos 0;
  message = some (record { mid = "m1"; text = "hello"; attachments = []; is_echo = false });
  postback = none;
}

-- No user is known, and the world is the texts that were sent.
abbrev services : Result Contact → Services (List SendTextRequest)
services contact = record {
  now = λ w. 0;
  get_user_profile = λ psid token w. (
    ok (record {
      id = psid;
      first_name = "A";
      last_name = "B";
      profile_pic = "";
      locale = "";
      timezone = pos 0;
    }),
    w,
  );
  is_known = λ u w. (ok false, w);
  mark_known = λ u w. (ok tt, w);
  set_locale = λ g u l w. (ok tt, w);
  create_contact = λ identity r w. (contact, w);
  create_via = λ identity g i s w. (ok tt, w);
  send_text = λ r w. (ok tt, r ∷ w);
  send_image = λ r w. (ok tt, w);
  send_document = λ r w. (ok tt, w);
  download = λ u t w. (err (plain "offline"), w);
  upload_file = λ r b w. (err (plain "offline"), w);
}

abbrev made : Services (List SendTextRequest)
made = services (ok (record { sub = "c1"; iss = "facebook" }))

abbrev there : Services (List SendTextRequest)
there = services (err (status already_exists "there"))

abbrev refused : Services (List SendTextRequest)
refused = services (err (plain "no"))

abbrev IsFromUser : List SendTextRequest → Type 0
IsFromUser w = All (λ (r : SendTextRequest). r.from ≡ (peers_of gate "u1").from) w

no_conflict : is_already_exists (plain "no") ≡ false
unfolding is_already_exists
no_conflict = refl

process_message-refused_example : (process_message refused gate greeting []).1 ≡ []
process_message-refused_example =
    process_message-refused refused (λ w. w ≡ []) gate greeting []
      (record { unknown = λ u w e. refl; contact = λ r w e. no_conflict })
      (record {
        get_user_profile = λ w k. k;
        is_known = λ u w e k. k;
        mark_known = λ u w e k. k;
        set_locale = λ l w k. k;
        create_contact = λ r w e f k. k;
        create_via = λ i w k. k;
      })
      refl
