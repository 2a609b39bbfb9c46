-- ===== src/Messenger/Tests.antt =====
-- A gateway that takes every call, with a world that is the calls so far.
use im_providers_service.Prelude.{String, refl, none, some, List, [], ◌∷◌, ◌⊎◌, ◌≡◌}
use im_providers_service.Prelude.Int.{pos}
use im_providers_service.Prelude.Io.{Io}
use im_providers_service.Prelude.Failure.{ok}
use im_providers_service.Core.Message.{Peer, Image}
use im_providers_service.Whatsapp.Messanger.{Headers}
use im_providers_service.Messenger.{Gateway, Context}
use im_providers_service.Messenger.Provider.{
  Request, image, location, Call, of_text, of_files, of_location, of_contact, Calls, Refuses,
  dispatch, dispatch-Calls,
}
use im_providers_service.Messenger.Decorated.{
  Reaches, core_messenger, through, forget, via_of, through-Reaches,
}
use im_providers_service.Whatsapp.Messanger.Registered.{Registered}

abbrev World : Type 0
World = List (Headers × Call (Unit {0}))

abbrev taken : Headers → Call (Unit {0}) → Io World String
taken h c w = (ok "m1", (h, c) ∷ w)

abbrev gateway : Gateway World (Unit {0})
gateway = record {
  parse = λ s. some s;
  new_struct = λ l. ok tt;
  send_text = λ h c. taken h (of_text c);
  send_document = λ h c. taken h (of_files c);
  send_location = λ h c. taken h (of_location c);
  send_contact = λ h c. taken h (of_contact c);
  send_interactive_callback = λ h c w. (ok tt, w);
}

abbrev peer : String → Peer
peer sub = record { sub = sub; iss = "whatsapp"; via = none; name = ""; id = "gate" }

abbrev photo : Image
photo = record {
  id = "f1";
  file_name = "cat.png";
  mime_type = "image/png";
  url = "https://files/f1";
  size = pos 9;
}

abbrev photos : Request
photos = image (record {
  domain_id = pos 1;
  from = peer "380";
  to = peer "bot";
  body = "a cat";
  images = photo ∷ [];
})

abbrev place : Request
place = location (record {
  from = peer "380";
  to = peer "bot";
  latitude = 50;
  longitude = 30;
  name = none;
  address = none;
  external_id = "e1";
  domain_id = pos 1;
})

abbrev empty : Context
empty = record { identity = none; headers = [] }

dispatch-Calls_example : Calls gateway empty photos [] ⊎ Refuses gateway empty photos []
dispatch-Calls_example = dispatch-Calls gateway empty photos []

registered :
    Registered
      (core_messenger gateway (λ h r w. (ok tt, w)) (λ h iss sub id w. (ok tt, w)))
      (peer "380")
      (peer "bot")
      (pos 1)
      []
      []
registered = record {
  recipient_fit = (refl, refl);
  contact_there = tt;
  via_there = tt;
  left = refl;
  sender_fit = (refl, refl);
}

through-Reaches_example :
    (through gateway (λ h r w. (ok tt, w)) (λ h iss sub id w. (ok tt, w)) place []
      ≡ forget (
          dispatch gateway
            (via_of gateway (λ h r w. (ok tt, w)) (λ h iss sub id w. (ok tt, w)) place)
            place
            []))
    × Reaches gateway (λ h r w. (ok tt, w)) (λ h iss sub id w. (ok tt, w)) place []
through-Reaches_example =
    through-Reaches gateway (λ h r w. (ok tt, w)) (λ h iss sub id w. (ok tt, w)) place [] []
      registered
