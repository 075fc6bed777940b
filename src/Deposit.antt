-- ===== src/Deposit.antt =====
-- src/deposit/mod.rs: the row of the `deposits` table, a settlement call, a timeline entry.
-- Addresses, hashes, salts, ids and amounts stand as the numbers that their text forms denote.
pub mod Status
pub mod Events
pub mod Lifecycle
pub mod Parsing
use gum_server.Prelude.{ℕ, String, Option, List}
use gum_server.Prelude.Json.{Value}
use Status.{DepositStatus}
use Events.{EventType}

-- A settlement call: `target.data`, the calldata as its bytes.
pub record CallView : Type 0 where
  pub target : ℕ
  pub calldata : List ℕ

-- Instants are milliseconds.
pub record Deposit : Type 0 where
  pub id : ℕ
  pub user_id : String
  pub chain_id : ℕ
  pub token_symbol : String
  pub token_address : ℕ
  pub token_decimals : ℕ
  pub amount : ℕ
  pub receiver : ℕ
  pub calls : List CallView
  pub recovery : ℕ
  pub salt : ℕ
  pub expires_at : ℕ
  pub payment_address : ℕ
  pub reference : Option ℕ
  pub webhook_url : Option String
  pub status : DepositStatus
  pub confirmed_amount : ℕ
  pub watch_id : Option ℕ
  pub watch_registered_at : Option ℕ
  pub engine_job_id : Option ℕ
  pub engine_submitted_at : Option ℕ
  pub tx_hash : Option ℕ
  pub block_number : Option ℕ
  pub failure_code : Option String
  pub failure_message : Option String
  pub failure_revert_data : Option (List ℕ)
  pub event_seq : ℕ
  pub detected_at : Option ℕ
  pub settled_at : Option ℕ
  pub failed_at : Option ℕ
  pub expired_at : Option ℕ
  pub created_at : ℕ
  pub updated_at : ℕ

pub record DepositEvent : Type 0 where
  pub id : ℕ
  pub deposit_id : ℕ
  pub sequence : ℕ
  pub event_type : EventType
  pub event_data : Value
  pub created_at : ℕ
