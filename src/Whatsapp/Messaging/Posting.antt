-- ===== src/Whatsapp/Messaging/Posting.antt =====
-- Whose token the messages of internal/whatsapp/messaging/messaging.usecase.go are posted with.
use Prim.Native.String
use im_providers_service.Prelude.{
  String, ℕ, ◌≡◌, refl, sym, ap, ◌∙◌, Bool, true, false, List, [], ◌∷◌, if◌then◌else◌,
}
use im_providers_service.Prelude.Io.{follow}
use im_providers_service.Prelude.Keeps.{follow-keeps}
use im_providers_service.Prelude.Int.{ℤ}
use im_providers_service.Prelude.Failure.{Result, ok, err, status, unauthenticated, ◌and_then◌}
use im_providers_service.Core.Message.{Message}
use im_providers_service.Whatsapp.Client.{
  HttpRequest, RequestClient, execute, new_request_client, with_access_token, client_of,
  default_config, validate_config, new_api_request,
}
use im_providers_service.Whatsapp.Client.Calls.{execute-keeps}
use im_providers_service.Whatsapp.Components.{BaseMessage, to_json}
use im_providers_service.Whatsapp.Messaging.{
  WhatsAppBusinessAccount, is_token_expired, post_fetch, MessageManager, manager_of,
  manager_of_fetched, prepare_message_manager, Services, extract_gate_id, found, resolve, post,
  send_message, PreparationInfo, identity, located, prepare_outbound_message_info, send_made, send,
  messages_request, read_response, first_id,
}

and_then-ok :
    {A : Type 0} (r : Result (Unit {0})) (x y : A) → (r and_then ok x) ≡ ok y → ok x ≡ ok y
and_then-ok (ok _) x y h = h
and_then-ok (err e) x y h = absurd (cc h)

client-token :
    (token : String) (client : RequestClient)
    → new_request_client (with_access_token token ∷ []) ≡ ok client
    → client.access_token ≡ token
unfolding new_request_client
client-token token client h =
    let e =
      and_then-ok (validate_config (with_access_token token default_config))
        (client_of (with_access_token token default_config)) client h in
    ap token_of (sym e)
  where
    token_of : Result RequestClient → String
    token_of (ok c) = c.access_token
    token_of (err x) = token

-- A manager holds the token of the account as fetched, which has not expired.
abbrev IsReady : ℕ → WhatsAppBusinessAccount → MessageManager → Type 0
IsReady now fetched manager =
    (is_token_expired now fetched ≡ false)
    × (manager.requester.access_token ≡ fetched.access_token_decrypted)

manager_of-token :
    (a : WhatsAppBusinessAccount) (c : Result RequestClient) (manager : MessageManager)
    → manager_of a c ≡ ok manager
    → c ≡ ok manager.requester
manager_of-token a (ok client) manager h = ap requester_of h
  where
    requester_of : Result MessageManager → Result RequestClient
    requester_of (ok m) = ok m.requester
    requester_of (err e) = err e
manager_of-token a (err e) manager h = absurd (cc h)

fetched-IsReady :
    (now : ℕ) (a : WhatsAppBusinessAccount) (manager : MessageManager) (expired : Bool)
    → is_token_expired now a ≡ expired
    → (if expired
        then err
            (status unauthenticated "access token is expired for this whatsapp business account")
        else manager_of a (new_request_client (with_access_token a.access_token_decrypted ∷ [])))
      ≡ ok manager
    → IsReady now a manager
fetched-IsReady now a manager true e h = absurd (cc h)
fetched-IsReady now a manager false e h =
    (e, client-token a.access_token_decrypted manager.requester (manager_of-token a _ manager h))

prepared-IsReady :
    (now : ℕ) (r : Result WhatsAppBusinessAccount) (manager : MessageManager)
    → manager_of_fetched now r ≡ ok manager
    → (a : WhatsAppBusinessAccount) × (r ≡ ok a) × IsReady now a manager
prepared-IsReady now (ok a) manager h =
    (a, refl, fetched-IsReady now a manager (is_token_expired now a) refl h)
prepared-IsReady now (err e) manager h = absurd (cc h)

module _ {W : Type 0} (api : Services W) (P : W → Type 0) (gate_id : String) where
  -- The account of the gate, as the database answers for its id in `w` and the cipher makes of it, and
  -- not expired when the database has answered.
  pub record IsUsable (fetched : WhatsAppBusinessAccount) : Type 0 where
    pub w : W
    pub row : WhatsAppBusinessAccount
    pub rows : List WhatsAppBusinessAccount
    pub answered : (api.query (extract_gate_id gate_id) w).0 ≡ ok (ok (row ∷ rows))
    pub decrypted : post_fetch api.decrypt row ≡ ok fetched
    pub unexpired :
        is_token_expired (api.now (api.query (extract_gate_id gate_id) w).1) fetched ≡ false

  -- The query for the gate and the search for the contact keep `P`, and so does a POST with the token of
  -- a usable account.
  pub record PostsKeep : Type 0 where
    pub query : (w : W) → P w → P (api.query (extract_gate_id gate_id) w).1
    pub locate :
        (headers : List (String × String)) (sub : String) (domain : ℤ) (w : W)
        → P w
        → P (api.locate headers sub domain w).1
    pub http :
        (a : WhatsAppBusinessAccount) (r : HttpRequest) (w : W)
        → IsUsable a
        → r.method ≡ "POST"
        → r.authorization ≡ String.◌++◌ "Bearer " a.access_token_decrypted
        → P w
        → P (api.http.send r w).1

  -- A manager that holds the token of a usable account.
  IsAuthorized : MessageManager → Type 0
  IsAuthorized manager =
      (a : WhatsAppBusinessAccount) × IsUsable a
      × (manager.requester.access_token ≡ a.access_token_decrypted)

  module _ (keeps : PostsKeep) where
    post-keeps :
        (id : String) (manager : MessageManager) (body : Result String) (w : W)
        → IsAuthorized manager
        → P w
        → P (post api id manager body w).1
    unfolding IsAuthorized new_api_request
    post-keeps id manager (err e) w own p = p
    post-keeps id manager (ok body) w (a, usable, token) p =
        follow-keeps P (execute api.http (messages_request api manager body) w)
          (λ raw w1. (read_response api id (api.json.send_response raw), w1))
          (execute-keeps api.http P _ w
            (λ r method authorization w1 p1.
              keeps.http a r w1 usable method (authorization ∙ ap (String.◌++◌ "Bearer ") token) p1)
            p)
          (λ raw _ w2 p2. p2)

    send_made-keeps :
        (message : Result BaseMessage) (info : PreparationInfo api) (w : W)
        → IsAuthorized info.manager
        → P w
        → P (send_made api message info w).1
    unfolding send_message
    send_made-keeps (err e) info w own p = p
    send_made-keeps (ok message) info w own p =
        follow-keeps P (send_message api info.manager message info.external_phone_number w)
          (λ response w1. (ok (record { id = first_id response.messages }), w1))
          (post-keeps _ info.manager (to_json api.json.marshal message _) w own p)
          (λ response _ w1 p1. p1)

    located-keeps :
        (make : Result BaseMessage) (message : Message) (account : WhatsAppBusinessAccount)
        (manager : Result MessageManager) (w : W)
        → ((m : MessageManager) → manager ≡ ok m → IsAuthorized m)
        → P w
        → P (follow (located api message account manager w) (send_made api make)).1
    located-keeps make message account (err e) w own p = p
    located-keeps make message account (ok manager) w own p =
        go (api.locate (identity api message account) message.to.sub message.domain_id w)
          (keeps.locate _ message.to.sub message.domain_id w p)
      where
        go :
            (r : Result String × W)
            → P r.1
            → P
                (follow
                  (follow r (λ sub w1.
                    (ok (record { manager = manager; external_phone_number = sub }), w1)))
                  (send_made api make)).1
        go (err e, w1) p1 = p1
        go (ok sub, w1) p1 = send_made-keeps make _ w1 (own manager refl) p1

    answered-keeps :
        (make : Result BaseMessage) (message : Message) (w : W)
        (q : Result (Result (List WhatsAppBusinessAccount)) × W)
        → api.query (extract_gate_id gate_id) w ≡ q
        → P q.1
        → P
            (follow
              (follow (found api q) (λ account w1.
                located api message account
                  (prepare_message_manager (api.now w1) api.decrypt account)
                  w1))
              (send_made api make)).1
    unfolding prepare_message_manager IsAuthorized
    answered-keeps make message w (err e, w1) h p = p
    answered-keeps make message w (ok (err e), w1) h p = p
    answered-keeps make message w (ok (ok []), w1) h p = p
    answered-keeps make message w (ok (ok (row ∷ rows)), w1) h p =
        located-keeps make message row _ w1
          (λ m e.
            let (a, decrypted, ready) =
              prepared-IsReady (api.now w1) (post_fetch api.decrypt row) m e in
            (
              a,
              record {
                w = w;
                row = row;
                rows = rows;
                answered = ap (λ q. q.0) h;
                decrypted = decrypted;
                unexpired = ap (λ q. is_token_expired (api.now q.1) a) h ∙ ready.0;
              },
              ready.1,
            ))
          p

-- Whatever message is made of a request, sending it makes only these calls: the query for the request's
-- gate, the search for the contact, and requests to the API, each of which is a POST with the token of
-- the first account that the query answers for the gate, as the cipher decrypts it, and only while that
-- token has not expired. Every property of the world that such calls keep, the send keeps.
pub send-keeps :
    {W : Type 0} (api : Services W) (P : W → Type 0) (make : Message → Result BaseMessage)
    (req : Message) (w : W)
    → PostsKeep api P req.gate_id
    → P w
    → P (send api make req w).1
unfolding send prepare_outbound_message_info resolve
send-keeps api P make req w keeps p =
    answered-keeps api P req.gate_id keeps (make req) req w
      (api.query (extract_gate_id req.gate_id) w) refl (keeps.query w p)
