-- ===== src/Whatsapp/Inbound/Tests.antt =====
-- A world that is the texts delivered so far, with services that answer always.
use im_providers_service.Prelude.{String, ◌≡◌, refl, ap, ◌∙◌, none, List, [], ◌∷◌, All, true, false}
use im_providers_service.Prelude.Int.{pos}
use im_providers_service.Prelude.Io.{Io}
use im_providers_service.Prelude.Failure.{ok}
use im_providers_service.Core.Message.{Peer, SendTextRequest}
use im_providers_service.Whatsapp.Client.{RequestClient}
use im_providers_service.Whatsapp.Account.{WhatsappBusinessAccount}
use im_providers_service.Whatsapp.Messanger.{Core, send_through}
use im_providers_service.Whatsapp.Messanger.Contacts.{Sends, send_through-Sends}
use im_providers_service.Whatsapp.Events.{
  BaseMessageEvent, text_event, Entry, Message, MessagesValue, text, audio,
}
use im_providers_service.Whatsapp.Webhook.{Json, handle_webhook}
use im_providers_service.Whatsapp.Webhook.Batch.{run, stages, handle_webhook-run}
use im_providers_service.Whatsapp.Inbound.{Services, handle_event}
use im_providers_service.Whatsapp.Inbound.Calls.{CallsKeep}
use im_providers_service.Whatsapp.Inbound.Addressing.{handle_event-keeps}

abbrev account : WhatsappBusinessAccount
account = record {
  id = "gate";
  dc = pos 1;
  phone_number = "100";
  phone_number_id = "number";
  access_token_encrypted = "sealed";
  access_token_decrypted = "";
  access_token_expires_at = none;
  business_id = "business";
  bot = record { id = "b"; iss = "bots"; sub = "bot" };
}

abbrev Sent : Type 0
Sent = List SendTextRequest

-- a call that does nothing
abbrev accepted : Io Sent (Unit {0})
accepted w = (ok tt, w)

abbrev core : Core Sent
core = record {
  create = λ h r. accepted;
  create_via = λ h iss sub via. accepted;
  send_text = λ h r w. (ok tt, r ∷ w);
  send_image = λ h r. accepted;
  send_document = λ h r. accepted;
  send_location = λ h r. accepted;
  send_contact = λ h r. accepted;
}

abbrev services : Services Sent
services = record {
  query = λ id w. (ok (ok (account ∷ [])), w);
  decrypt = λ sealed. ok "token";
  now = λ w. 5;
  now_text = λ w. "now";
  http = record {
    new_request = λ method url. ok tt;
    send = λ r w. (ok (record { status_code = 200; content_type = "image/png"; body = ok "" }), w);
    range = λ m. m;
  };
  decoder = record { media_url = λ raw. ok "url"; success = λ raw. ok true; id = λ raw. ok "id" };
  upload_file = λ r body w. (ok (record { id = "file"; size = pos 3 }), w);
  core = core;
}

abbrev client : RequestClient
client = record { api_version = "v25.0"; base_url = "graph.facebook.com"; access_token = "token" }

abbrev base : BaseMessageEvent
base = record {
  business_account_id = "entry";
  requester = client;
  message_id = "m1";
  from = "380";
  sender_name = "Ann";
  replied_to_message_id = "";
  timestamp = "1";
  is_forwarder = false;
  phone_number = record { display_number = "100"; id = "number" };
}

abbrev ToBot : SendTextRequest → Type 0
ToBot r = r.to.sub ≡ "bot"

first_account :
    (row : WhatsappBusinessAccount) (rows : List WhatsappBusinessAccount)
    → ok (ok (account ∷ [])) ≡ ok (ok (row ∷ rows))
    → row ≡ account
first_account row rows q = cc q

calls_keep : CallsKeep services (All ToBot) base
calls_keep = record {
  query = λ w p. p;
  http = λ r w p. p;
  upload_file = λ r body w p. p;
  create = λ h dc from to w own p. p;
  create_via = λ h dc from to w own p. p;
  send_text = λ h r w own p.
      (ap (λ q. q.sub) own.6 ∙ ap (λ a. a.bot.sub) (first_account own.0 own.1 own.3), p);
  send_image = λ h r w own p. p;
  send_document = λ h r w own p. p;
  send_location = λ h r w own p. p;
  send_contact = λ h r w own p. p;
}

handle_event-keeps_example : All ToBot (handle_event services (text_event base "hi") []).1
handle_event-keeps_example =
    handle_event-keeps services (All ToBot) (text_event base "hi") [] calls_keep tt

abbrev peer : String → Peer
peer sub = record { sub = sub; iss = "whatsapp"; via = none; name = ""; id = "gate" }

send_through-Sends_example :
    Sends core
      (peer "380")
      (peer "bot")
      (pos 1)
      []
      (λ send. send_through core (peer "380") (peer "bot") (pos 1) send [])
send_through-Sends_example = send_through-Sends core (peer "380") (peer "bot") (pos 1) []

abbrev message : Message
message = record {
  id = "m1";
  from = "380";
  timestamp = "1";
  type = text;
  forwarded = false;
  context_id = "";
  text_body = "hi";
  image = record { id = ""; mime_type = ""; sha256 = ""; caption = ""; url = "" };
  document = record {
    id = "";
    mime_type = "";
    sha256 = "";
    caption = "";
    filename = "";
    link = "";
  };
  location = record { latitude = 0; longitude = 0; name = ""; address = "" };
  contacts = [];
}

abbrev value : MessagesValue
value = record {
  display_phone_number = "100";
  phone_number_id = "number";
  contact_names = "Ann" ∷ [];
  messages = record message { type = audio } ∷ message ∷ [];
}

abbrev notification : List Entry
notification =
    record { id = "entry"; changes = record { value = "{}"; field = "messages" } ∷ [] } ∷ []

abbrev json : Json
json = record {
  payload = λ payload. ok notification;
  encode = λ v. ok v;
  messages = λ encoded. ok value;
}

handle_webhook-run_example :
    handle_webhook json client (handle_event services) "{}" []
    ≡ run json client
        (handle_event services)
        (stages json client (handle_event services) notification)
        []
handle_webhook-run_example =
    handle_webhook-run json client (handle_event services) "{}" notification [] refl
