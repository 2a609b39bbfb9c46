-- ===== src/Facebook.antt =====
-- internal/facebook: the Messenger Platform provider.
pub mod Model
pub mod Buttons
pub mod Services
pub mod Contacts
pub mod Media
pub mod Inbound
pub mod Gates
pub mod Outbound
pub mod Requests
pub mod Manage
pub mod Menu
