-- ===== src/Whatsapp.antt =====
-- The WhatsApp provider, internal/whatsapp.
pub mod Client
pub mod Components
pub mod Account
pub mod Media
pub mod Messanger
pub mod Events
pub mod Webhook
pub mod Inbound
pub mod Messaging
pub mod Gate
