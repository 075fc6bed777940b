-- ===== src/Chain.antt =====
-- src/chain: the on-chain payment and its reverts.
pub mod Payment
pub mod Outcomes
pub mod Registry
pub mod Revert
