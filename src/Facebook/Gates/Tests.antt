-- ===== src/Facebook/Gates/Tests.antt =====
-- A page with two messages of one user, for the theorems on webhooks.
use im_providers_service.Prelude.{
  String, ℕ, ◌↔◌, ◌≡◌, refl, true, false, none, some, List, [], ◌∷◌, ◌++◌, ◌==◌, string_eq,
  if◌then◌else◌,
}
use im_providers_service.Prelude.Int.{pos}
use im_providers_service.Prelude.Lru.{unbounded, find}
use im_providers_service.Prelude.Text.{codes}
use im_providers_service.Prelude.Failure.{Result, ok, err, plain, err_not_found}
use im_providers_service.Core.Message.{SendTextRequest}
use im_providers_service.Core.Gate.{status_active}
use im_providers_service.Facebook.Model.{FacebookGate, MetaApp, Messaging, Entry, WebhookRequest}
use im_providers_service.Facebook.Services.{Services}
use im_providers_service.Facebook.Gates.{
  GateState, Shared, gate_key, webhook_uri, strip_prefix, validate_signature, handle_webhook,
  update,
}
use im_providers_service.Facebook.Gates.Signature.{IsSigned, validate_signature_iff}
use im_providers_service.Facebook.Gates.Batch.{
  IsCurrent, visible, handle_uncached, handle_webhook-uncached,
}
use im_providers_service.Facebook.Gates.Stale.{update-stays_disabled}

abbrev gate : FacebookGate
gate = record {
  id = "g1";
  domain_id = pos 7;
  peer = record { sub = "bot"; iss = "bots"; via = none; name = ""; id = "" };
  name = "page";
  meta_app_id = "a1";
  page_id = "p1";
  page_name = "page";
  page_token = "token";
  enabled = true;
  status = status_active;
}

abbrev message : String → Messaging
message text = record {
  sender = "u1";
  recipient = "p1";
  timestamp = pos 0;
  message = some (record { mid = "m1"; text = text; attachments = []; is_echo = false });
  postback = none;
}

abbrev entry : Entry
entry = record { id = "p1"; time = pos 0; messaging = message "a" ∷ message "b" ∷ [] }

abbrev event : WebhookRequest
event = record { object = "page"; entry = entry ∷ [] }

-- Every user is known, and the world is the texts that were sent.
abbrev services : Services (List SendTextRequest)
services = record {
  now = λ w. 0;
  get_user_profile = λ psid token w. (
    ok (record {
      id = psid;
      first_name = "A";
      last_name = "B";
      profile_pic = "";
      locale = "";
      timezone = pos 0;
    }),
    w,
  );
  is_known = λ u w. (ok true, w);
  mark_known = λ u w. (ok tt, w);
  set_locale = λ g u l w. (ok tt, w);
  create_contact = λ identity r w. (err (plain "offline"), w);
  create_via = λ identity g i s w. (ok tt, w);
  send_text = λ r w. (ok tt, r ∷ w);
  send_image = λ r w. (ok tt, w);
  send_document = λ r w. (ok tt, w);
  download = λ u t w. (err (plain "offline"), w);
  upload_file = λ r b w. (err (plain "offline"), w);
}

abbrev select_gate : String → String → List SendTextRequest → Result FacebookGate
select_gate page uri w = if page == "p1" then ok gate else err err_not_found

abbrev empty : Shared (List (String × GateState)) (List SendTextRequest)
empty = record { cache = []; world = [] }

empty-IsCurrent : IsCurrent unbounded services select_gate empty
unfolding find
empty-IsCurrent uri page e = absurd (cc e)

handle_webhook-uncached_example :
    visible unbounded services select_gate
      (handle_webhook unbounded services select_gate "/hook" (ok event) empty)
    ≡ handle_uncached unbounded services select_gate "/hook" (ok event) []
handle_webhook-uncached_example =
    handle_webhook-uncached unbounded services select_gate "/hook" (ok event) empty empty-IsCurrent

-- The cache still has the gate as disabled.
abbrev stale : Shared (List (String × GateState)) (List SendTextRequest)
stale = record {
  cache =
      (
        "/hook:p1",
        record { gate_id = "g1"; enabled = false; issuer = "bots"; sub = "bot"; domain = pos 7 },
      )
      ∷ [];
  world = [];
}

abbrev app : MetaApp
app = record {
  id = "a1";
  uri = "/hook";
  name = "app";
  app_id = "1";
  app_secret = "s";
  verify_token = "v";
  oauth_redirect_uri = "";
  scopes = [];
}

-- In place of the MAC: the secret before the body.
abbrev mac : String → List ℕ → List ℕ
mac secret body = codes secret ++ body

validate_signature_iff_example :
    (validate_signature (λ uri. ok app) mac "/hook" "sha256=sb" (codes "b") ≡ ok tt)
    ↔ IsSigned (λ uri. ok app) mac "/hook" (codes "b") "sha256=sb"
validate_signature_iff_example =
    validate_signature_iff (λ uri. ok app) mac "/hook" "sha256=sb" (codes "b")

abbrev written : Shared (List (String × GateState)) (List SendTextRequest)
written = (update unbounded (λ t. ok t) (λ g t w. (ok tt, w)) (λ id w. (ok "p1", w)) gate stale).1

update-stays_disabled_example :
    ((handle_webhook unbounded services select_gate "/hook" (ok event) written).0 ≡ ok tt)
    × ((handle_webhook unbounded services select_gate "/hook" (ok event) written).1.world
        ≡ written.world)
unfolding gate_key webhook_uri find strip_prefix
update-stays_disabled_example =
    update-stays_disabled unbounded (λ t. ok t) (λ g t w. (ok tt, w)) (λ id w. (ok "p1", w))
      services select_gate gate "/hook" event entry [] stale refl refl refl
