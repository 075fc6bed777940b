-- ===== src/Webhooks/Outcome.antt =====
-- src/webhooks/inbound.rs: what an engine event, or a polled job, means for a deposit.
use Prim.Native.String.{◌++◌}
use gum_server.Prelude.{
  ℕ, String, Bool, Option, none, some, List, [], str_eq, if◌then◌else◌, unwrap_or,
}
use gum_server.Prelude.Json.{
  Value, null, boolean, number, string, object, field, end, with_field, opt_string, opt_number,
}
use gum_server.Deposit.{Deposit}
use gum_server.Chain.Payment.{
  EventTopics, ReceiptLog, ExecutionOutcome, recovered_only, wrong_chain, no_events,
  execution_outcome,
}
use gum_server.Chain.Payment as Payment
use gum_server.Chain.Revert.{AbiDecoder, decode_execute, describe}
use gum_server.Chain.Revert.View.{of_execute, to_json}

-- src/clients/engine.rs: why the engine failed a job, with the revert data as bytes where it has
-- some that are hexadecimal (`revert_bytes`).
pub record EngineError : Type 0 where
  pub code : String
  pub message : String
  pub revert_bytes : Option (List ℕ)

-- The node's receipt as JSON, with its `logs` as they deserialise, if they do.
pub record Receipt : Type 0 where
  pub json : Value
  pub logs : Option (List ReceiptLog)

pub record EngineEvent : Type 0 where
  pub event_id : String
  pub event : String
  pub job_id : ℕ
  pub outcome : Option String
  pub tx_hash : Option ℕ
  pub block_number : Option ℕ
  pub receipt : Option Receipt
  pub reincluded : Bool
  pub error : Option EngineError

pub record Mined : Type 0 where
  pub tx_hash : ℕ
  pub block_number : Option ℕ
  pub event_data : Value

pub record Failure : Type 0 where
  pub code : String
  pub message : String
  pub tx_hash : Option ℕ
  pub revert_data : Option (List ℕ)
  pub event_data : Value

pub data SettlementOutcome : Type 0 where
  included settled : Mined → SettlementOutcome
  failed : Failure → SettlementOutcome
  pending : SettlementOutcome

-- What the code reads of the chain that its dependencies compute: the ABI decoders and the topics.
pub record ChainCodec : Type 0 where
  pub abi : AbiDecoder
  pub topics : EventTopics

module _ (chain : ChainCodec) where
  abbrev default_code : Option ℕ → String
  default_code (some h) = "execution_reverted"
  default_code none = "failed"

  abbrev default_message : Option ℕ → String
  default_message (some h) = "PaymentFactory.execute reverted"
  default_message none = "the engine could not execute the transaction"

  abbrev error_code : Option EngineError → Option ℕ → String
  error_code none h = default_code h
  error_code (some e) h = e.code

  -- An empty message of the engine counts as none.
  abbrev error_message : Option EngineError → Option ℕ → String
  error_message none h = default_message h
  error_message (some e) h = if str_eq e.message "" then default_message h else e.message

  abbrev error_bytes : Option EngineError → Option (List ℕ)
  error_bytes none = none
  error_bytes (some e) = e.revert_bytes

  abbrev failure_message : Deposit → Option (List ℕ) → String → String
  failure_message d none engine_message = engine_message
  failure_message d (some bytes) engine_message =
      describe chain.abi d.calls (decode_execute chain.abi bytes)

  abbrev with_revert : Deposit → Option (List ℕ) → Value → Value
  with_revert d none v = v
  with_revert d (some bytes) v =
      with_field "revert" (to_json (of_execute chain.abi bytes d.calls)) v

  -- A job the engine failed, or an `execute` that reverted on chain.
  unfoldable pub engine_failure :
      Option EngineError → Option ℕ → Deposit → Value → SettlementOutcome
  engine_failure error tx_hash d v =
      let engine_message = error_message error tx_hash in
      let revert_data = error_bytes error in
      failed (record {
        code = "engine_" ++ error_code error tx_hash;
        message = failure_message d revert_data engine_message;
        tx_hash = tx_hash;
        revert_data = revert_data;
        event_data =
            with_revert d revert_data (with_field "engine_message" (string engine_message) v);
      })

  abbrev pub receipt_json : Option Receipt → Value
  receipt_json none = null
  receipt_json (some r) = r.json

  abbrev pub receipt_logs : Option Receipt → List ReceiptLog
  receipt_logs none = []
  receipt_logs (some r) = unwrap_or r.logs []

  abbrev failed_on_chain : String → String → ℕ → Value → SettlementOutcome
  failed_on_chain code message tx_hash v = failed (record {
    code = code;
    message = message;
    tx_hash = some tx_hash;
    revert_data = none;
    event_data = v;
  })

  abbrev pub of_execution : ExecutionOutcome → ℕ → Option ℕ → Value → SettlementOutcome
  of_execution Payment.settled h b v =
      settled (record { tx_hash = h; block_number = b; event_data = v })
  of_execution recovered_only h b v =
      failed_on_chain "expired_on_chain"
        "the payment expired before it was executed; the balance was forwarded to recovery" h v
  of_execution wrong_chain h b v =
      failed_on_chain "wrong_chain" "Payment was deployed on a chain other than the deposit's" h v
  of_execution no_events h b v =
      failed_on_chain "unexpected_outcome"
        "execute succeeded but the payment address emitted no Settled event" h v

  abbrev pub of_outcome :
      Option String
      → ℕ
      → Option ℕ
      → Option Receipt
      → Option EngineError
      → Deposit
      → Value
      → SettlementOutcome
  of_outcome none h b r e d v = pending
  of_outcome (some o) h b r e d v =
      if str_eq o "success"
      then of_execution (execution_outcome chain.topics d.payment_address (receipt_logs r)) h b v
      else if str_eq o "reverted"
      then engine_failure e (some h) d v
      else pending

  -- The engine's `outcome` says whether the transaction reverted, the logs say where the money went.
  unfoldable pub from_receipt :
      Option String
      → Option ℕ
      → Option ℕ
      → Option Receipt
      → Option EngineError
      → Deposit
      → Value
      → SettlementOutcome
  unfolding engine_failure
  from_receipt o none b r e d v = pending
  from_receipt o (some h) b r e d v =
      of_outcome o h b r e d (with_field "receipt" (receipt_json r) v)

  abbrev pub event_json : EngineEvent → Value
  event_json event = object (
      field "engine_event_id" (string event.event_id) (
        field "engine_job_id" (number event.job_id) (
          field "tx_hash" (opt_number event.tx_hash) (
            field "block_number" (opt_number event.block_number) (
              field "outcome" (opt_string event.outcome)
                (field "reincluded" (boolean event.reincluded) end))))))

  abbrev included_of : Option ℕ → Option ℕ → Value → SettlementOutcome
  included_of none b v = pending
  included_of (some h) b v = included (record { tx_hash = h; block_number = b; event_data = v })

  unfoldable pub from_event : EngineEvent → Deposit → SettlementOutcome
  unfolding from_receipt
  from_event event d =
      let v = event_json event in
      if str_eq event.event "transaction.included"
      then included_of event.tx_hash event.block_number v
      else if str_eq event.event "transaction.confirmed"
      then from_receipt event.outcome event.tx_hash event.block_number event.receipt event.error d v
      else if str_eq event.event "transaction.failed"
      then engine_failure event.error event.tx_hash d v
      else pending
