-- ===== src/Relay.antt =====
-- src/deposit/relay.rs and src/clients/relay.rs: the checks that hold a quote of Relay against the
-- deposit before a payer may execute it. The contracts of Relay by role, and the terms of a route.
pub mod Abi
pub mod Spend
pub mod Selectors
pub mod Entrypoints
pub mod Nested
pub mod Terms
pub mod Order
pub mod Quote
pub mod Steps
pub mod Checks
pub mod DirectTokens
pub mod Chains
pub mod Handler
pub mod Offered
pub mod Levels
pub mod Wallet
pub mod Tally
pub mod Multicalls
pub mod Actions
pub mod Tabs
pub mod Honoured
pub mod Accepted
pub mod Bounds
pub mod Shape
pub mod Targets
pub mod Consumed
pub mod Words
pub mod Deposits
pub mod Drained
use gum_server.Prelude.{ℕ, String, Bool, ◌||◌, List, ◌==◌, any}

-- Addresses are the numbers they stand for. `Vec::contains`.
abbrev pub has_address : ℕ → List ℕ → Bool
has_address a = any (λ b. b == a)

pub record RelayRoles : Type 0 where
  pub depositories : List ℕ
  pub approval_proxies : List ℕ
  pub receivers : List ℕ
  pub routers : List ℕ

-- `RelayRoles::contains`
unfoldable pub is_relay : RelayRoles → ℕ → Bool
is_relay roles a =
    has_address a roles.depositories
    || has_address a roles.approval_proxies
    || has_address a roles.receivers
    || has_address a roles.routers

unfoldable pub may_hold_allowance : RelayRoles → ℕ → Bool
may_hold_allowance roles a =
    has_address a roles.depositories || has_address a roles.approval_proxies

pub record Expected : Type 0 where
  pub user : ℕ
  pub origin_chain_id : ℕ
  pub origin_currency : ℕ
  pub destination_chain_id : ℕ
  pub token : ℕ
  pub recipient : ℕ
  pub amount : ℕ
  pub relay_roles : RelayRoles
  pub origin_decimals : ℕ
  pub token_decimals : ℕ
  pub origin_chain_names : List String
  pub destination_chain_names : List String
