-- ===== src/Facebook/Manage/Tests.antt =====
-- A gate and an app, for the theorems on their management.
use im_providers_service.Prelude.{◌↔◌, ◌≡◌, refl, true, false, none, [], ◌∷◌}
use im_providers_service.Prelude.Int.{pos}
use im_providers_service.Prelude.Failure.{ok}
use im_providers_service.Core.Gate.{status_active}
use im_providers_service.Facebook.Model.{FacebookGate, MetaApp}
use im_providers_service.Facebook.Gates.{VerifyRequest, verify}
use im_providers_service.Facebook.Manage.{GateStore}
use im_providers_service.Facebook.Requests.{
  PeerInput, UpdateGateRequest, UpdateAppRequest, apply_to_app, app_change, require_fields,
}
use im_providers_service.Facebook.Requests.Fields.{IsFilled, require_fields-IsFilled}
use im_providers_service.Facebook.Manage.Updates.{verify-apply_to_app}

abbrev gate : FacebookGate
gate = record {
  id = "g1";
  domain_id = pos 7;
  peer = record { sub = "bot"; iss = "bots"; via = none; name = ""; id = "" };
  name = "page";
  meta_app_id = "a1";
  page_id = "p1";
  page_name = "page";
  page_token = "token";
  enabled = true;
  status = status_active;
}

-- A store that counts nothing: one gate, and the last update.
abbrev gates : GateStore FacebookGate
gates = record {
  insert = λ dc g w. (ok g, g);
  select = λ id w. (ok w, w);
  update = λ g w. (ok tt, g);
  unbind = λ id w. (ok tt, w);
}

abbrev switch_off : UpdateGateRequest
switch_off = record { id = "g1"; name = "new"; enabled = false; peer = none }

abbrev bot : PeerInput
bot = record { sub = "bot"; iss = "bots" }

abbrev app : MetaApp
app = record {
  id = "a1";
  uri = "/hook";
  name = "app";
  app_id = "1";
  app_secret = "s";
  verify_token = "v";
  oauth_redirect_uri = "";
  scopes = [];
}

abbrev rename : UpdateAppRequest
rename = record {
  id = "a1";
  name = "new";
  app_secret = "";
  oauth_redirect_uri = "";
  scopes = none;
  verify_token = "";
}

abbrev guess : VerifyRequest
guess = record { mode = "subscribe"; challenge = "1"; verify_token = "guess" }

verify-apply_to_app_example :
    verify (λ uri. ok (apply_to_app (app_change rename) app)) "hook" guess ≡ ok "1"
verify-apply_to_app_example = verify-apply_to_app rename app "hook" guess refl refl

require_fields-IsFilled_example :
    (require_fields (("name", "page") ∷ ("page_id", "") ∷ []) ≡ ok tt)
    ↔ IsFilled (("name", "page") ∷ ("page_id", "") ∷ [])
require_fields-IsFilled_example = require_fields-IsFilled (("name", "page") ∷ ("page_id", "") ∷ [])
