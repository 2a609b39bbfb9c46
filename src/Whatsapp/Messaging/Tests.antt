-- ===== src/Whatsapp/Messaging/Tests.antt =====
-- A world that is the requests sent so far, with an account whose token is decrypted and has not expired.
use Prim.Native.String
use im_providers_service.Prelude.{
  String, ℕ, ◌≡◌, sym, ap, ◌∙◌, Option, none, some, List, [], ◌∷◌, All, true,
}
use im_providers_service.Prelude.Int.{pos}
use im_providers_service.Prelude.Failure.{Result, ok, err}
use im_providers_service.Core.Message.{Message, peer_of_sub}
use im_providers_service.Whatsapp.Client.{HttpRequest}
use im_providers_service.Whatsapp.Messaging.{
  WhatsAppBusinessAccount, post_fetch, Services, text_of, send,
}
use im_providers_service.Whatsapp.Messaging.Posting.{PostsKeep, send-keeps}

abbrev Posted : Type 0
Posted = List HttpRequest

abbrev account : Option ℕ → WhatsAppBusinessAccount
account expires = record {
  phone_number = "100";
  phone_number_id = "number";
  business_id = "business";
  access_token_encrypted = "sealed";
  access_token_decrypted = "";
  access_token_expires_at = expires;
  contact = record { id = "c"; iss = "bots"; sub = "bot" };
}

abbrev services : Option ℕ → Services Posted
services expires = record {
  query = λ id w. (ok (ok (account expires ∷ [])), w);
  decrypt = λ sealed. ok "token";
  now = λ w. 5;
  locate = λ headers sub domain w. (ok "380", w);
  http = record {
    new_request = λ method url. ok tt;
    send = λ r w. (
      ok (record { status_code = 200; content_type = "application/json"; body = ok "{}" }),
      r ∷ w,
    );
    range = λ m. m;
  };
  json = record {
    marshal = λ payload. ok "{}";
    send_response = λ raw. ok (record { messages = "wamid" ∷ []; error = none });
    status_response = λ raw. ok (record { success = true; error = none });
    read_body = λ id typing. ok "{}";
  };
}

abbrev message : Message
message = record {
  gate_id = "gate";
  domain_id = pos 1;
  to = peer_of_sub "user";
  text = "hello";
  documents = [];
  images = [];
  interactive = none;
}

abbrev ByToken : HttpRequest → Type 0
ByToken r = r.authorization ≡ "Bearer token"

-- The one account that is usable has the token that the cipher gives.
token_of_usable :
    (row a : WhatsAppBusinessAccount) (rows : List WhatsAppBusinessAccount)
    → ok (ok (account (some 9) ∷ [])) ≡ ok (ok (row ∷ rows))
    → post_fetch (λ sealed. ok "token") row ≡ ok a
    → a.access_token_decrypted ≡ "token"
unfolding post_fetch
token_of_usable row a rows q h = ap token_of (sym (decrypted ∙ h))
  where
    same : account (some 9) ≡ row
    same = cc q

    decrypted :
        ok (record (account (some 9)) { access_token_decrypted = "token" })
        ≡ post_fetch (λ sealed. ok "token") row
    decrypted = ap (post_fetch (λ sealed. ok "token")) same

    token_of : Result WhatsAppBusinessAccount → String
    token_of (ok x) = x.access_token_decrypted
    token_of (err e) = ""

posts_keep : PostsKeep (services (some 9)) (All ByToken) "gate"
posts_keep = record {
  query = λ w p. p;
  locate = λ headers sub domain w p. p;
  http = λ a r w usable method authorization p. (
    authorization
        ∙ ap (String.◌++◌ "Bearer ")
            (token_of_usable usable.row a usable.rows usable.answered usable.decrypted),
    p,
  );
}

send-keeps_example : All ByToken (send (services (some 9)) text_of message []).1
send-keeps_example = send-keeps (services (some 9)) (All ByToken) text_of message [] posts_keep tt
