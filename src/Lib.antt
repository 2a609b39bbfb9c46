-- ===== src/Lib.antt =====
-- A model of the webitel im-providers-service, which connects messaging platforms to the internal
-- message gateway, with the theorems that it does what it is for.
--
-- The parts of the program, and where they are modelled:
--   Prelude: texts as code points (Text), Go's errors (Failure), effects on a state (Io), maps
--     (Dict), integers (Int), and the documented behaviour of golang-lru caches (Lru);
--   Core: the part that all platforms share, internal/core and internal/provider.
--     Core/Message, Core/Gate: model/message.go and model/gate.go with the enums of handler/gate.go;
--     Core/Gate/Listing: the paged list of gates through store/gate_postgres.go, service/gate.go and
--     handler/gate.go; Core/Registry: provider/registry.go; Core/Requests, Core/Outbound: the send
--     methods of handler/outbound_message.go; Core/Webhook: webhook/handler.go; Core/Media: service/media.go;
--     Core/Template: service/template.go, handler/template.go and store/template_postgres.go;
--   Facebook: the Messenger adapter, internal/facebook.
--     Facebook/Model: types.go and model/; Facebook/Services: what the adapter calls; Facebook/Inbound:
--     processMessage of webhook.go, with Facebook/Media (media.go) and Facebook/Contacts (user.go);
--     Facebook/Gates: HandleWebhook of webhook.go, provider.go, signature.go and the cache
--     side of store/postgres/facebook.go; Facebook/Outbound: outbound.go; Facebook/Buttons: the
--     keyboards of client.go; Facebook/Requests, Facebook/Manage, Facebook/Menu: handler/ and service/
--     for gates, apps and menus, with model/validate.go;
--   Whatsapp: the WhatsApp adapter, internal/whatsapp.
--     Whatsapp/Client, Whatsapp/Media: client/ and media/; Whatsapp/Components: messaging/components/;
--     Whatsapp/Account: common/common.model.go and resolver/; Whatsapp/Events, Whatsapp/Webhook:
--     webhook/events/ and webhook.manager.go; Whatsapp/Messanger: webhook.core.messanger.go;
--     Whatsapp/Inbound: webhook.usecase.go; Whatsapp/Messaging: messaging/; Whatsapp/Gate: gate/;
--   Messenger: the messenger that both adapters deliver through, service/message.go, with its wrapper of
--     service/message_auth.go (Messenger/Identity), the client interceptor of infra/client/grpc/client.go,
--     and the three together with the WhatsApp webhook's messenger (Messenger/Decorated);
--   Pubsub: the broker client internal/core/pubsub, its channel in Pubsub and the manager with its
--     reconnect goroutines, as a step relation, in Pubsub/Loop;
--   Sql: CompactSQL of infra/db/postgresx/util.go;
--   Crypto: the encryption of secrets, pkg/crypto/aes.go.
--
-- How they interact: the entry point (Core/Webhook) hands a checked body to an adapter's
-- HandleWebhook (Facebook/Gates), which runs the pipeline of each message (Facebook/Inbound) and
-- delivers to the messenger. Outbound, a handler (Core/Outbound) resolves the adapter of a gate by
-- its type and calls its send method (Facebook/Outbound), which builds the platform's message
-- (Facebook/Buttons). The WhatsApp webhook (Whatsapp/Webhook) makes events of a notification, whose
-- handlers (Whatsapp/Inbound) find the account (Whatsapp/Account), move media (Whatsapp/Media) and
-- deliver through a messenger that makes the sender's contact first (Whatsapp/Messanger).
--
-- Methods that change state are functions from a state to a result and a state (Prelude/Io), so
-- that what was done before an error stays done. What a part calls outside of it (databases, HTTP
-- APIs, caches, clocks) is a record of such effects on a world of any type, and a function that
-- leaves the world as it was has called nothing. The laws of the LRU cache, of a table behind
-- LIMIT and OFFSET, and of the ciphers are fields or hypotheses. No definition of the code runs on
-- fuel; the walk through pages in Core/Gate/Listing/Pages counts its requests.
-- Go's machine integers that are counted here (pages, lengths) stay far from their bounds and are
-- unbounded in the model.
--
-- Not modelled: logging, times in answers, HTTP and JSON encoding, SQL other than its effect on the
-- gate cache and on the templates, OAuth, wiring and generated code. A panic is the phase `panicked` in
-- Pubsub/Loop, the error `nil_pointer` in Facebook/Requests and Whatsapp/Gate, and the error
-- `out_of_range` in Whatsapp/Messaging.
mod Prelude
pub mod Sql
pub mod Core
pub mod Facebook
pub mod Whatsapp
pub mod Messenger
pub mod Pubsub
pub mod Crypto
