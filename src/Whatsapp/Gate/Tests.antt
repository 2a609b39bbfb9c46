-- ===== src/Whatsapp/Gate/Tests.antt =====
-- A gate that passes every check, in a world that is the gates saved so far.
use im_providers_service.Prelude.{none, some, List, [], ◌∷◌, true}
use im_providers_service.Prelude.Int.{pos}
use im_providers_service.Prelude.Failure.{ok}
use im_providers_service.Whatsapp.Gate.{Gate, Services, token_contact_account, inserted, save_with}
use im_providers_service.Whatsapp.Gate.Saving.{Stores, save_with-Stores}

abbrev services : Services (List Gate)
services = record {
  search = λ contact w. (ok contact, w);
  http = record {
    new_request = λ method url. ok tt;
    send = λ r w. (ok (record { status_code = 200; content_type = ""; body = ok "{}" }), w);
    range = λ m. m;
  };
  status_response = λ raw. ok (record { success = true; error = none });
  encrypt = λ text w. (ok "sealed", w);
  schedule = λ w. token_contact_account;
  insert = λ gate w. (inserted gate, gate ∷ w);
}

abbrev gate : Gate
gate = record {
  id = "";
  name = "shop";
  type = "whatsapp";
  enabled = true;
  created_at = pos 0;
  updated_at = pos 0;
  created_by = pos 0;
  updated_by = pos 0;
  contact = some (record { id = ""; iss = "bots"; sub = "bot" });
  dc = pos 0;
  waba = record {
    id = "";
    meta_app_id = "app";
    phone_number = "100";
    phone_number_id = "number";
    access_token = "token";
    access_token_encrypted = "";
    access_token_expires_at = none;
    business_id = "business";
    client = none;
  };
}

save_with-Stores_example :
    Stores services (pos 1) gate [] (λ store. save_with services store (some (pos 1)) gate [])
save_with-Stores_example = save_with-Stores services (pos 1) gate []
