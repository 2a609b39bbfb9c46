-- ===== src/Facebook/Manage/Updates.antt =====
-- What the updates write and answer.
use im_providers_service.Prelude.{String, ◌≡◌, string_eq}
use im_providers_service.Prelude.Failure.{ok}
use im_providers_service.Facebook.Model.{MetaApp}
use im_providers_service.Facebook.Gates.{VerifyRequest, verify}
use im_providers_service.Facebook.Requests.{UpdateAppRequest, apply_to_app, app_change}

-- An update of an app with no verify token in its request leaves an app whose handshake accepts any token.
pub verify-apply_to_app :
    (r : UpdateAppRequest) (app : MetaApp) (uri : String) (req : VerifyRequest)
    → r.verify_token ≡ ""
    → req.mode ≡ "subscribe"
    → verify (λ _. ok (apply_to_app (app_change r) app)) uri req ≡ ok req.challenge
unfolding verify apply_to_app
verify-apply_to_app r app uri req empty mode = rw (mode, empty)
