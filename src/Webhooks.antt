-- ===== src/Webhooks.antt =====
-- src/webhooks: the deliveries of gum-indexer and gum-engine.
pub mod Target
pub mod Public
pub mod Outcome
pub mod Inbound
pub mod Handlers
pub mod Redelivery
pub mod Settled
