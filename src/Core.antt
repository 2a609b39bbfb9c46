-- ===== src/Core.antt =====
-- internal/core and internal/provider: what every messaging platform shares.
pub mod Message
pub mod Gate
pub mod Registry
pub mod Requests
pub mod Outbound
pub mod Webhook
pub mod Media
pub mod Template
