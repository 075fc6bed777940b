-- ===== src/Chain/Payment.antt =====
-- src/chain/payment.rs: a settlement call, the terms of a payment, and what the logs of the
-- `execute` transaction say. The ABI encodings and the event signatures are parameters.
use gum_server.Prelude.{ℕ, ◌/◌, Bool, true, false, List, [], ◌∷◌, ◌==◌, if◌then◌else◌}
use gum_server.Deposit.{Deposit, CallView}

-- The topics of the `Payment` events: hashes of their signatures.
pub record EventTopics : Type 0 where
  pub settled : ℕ
  pub wrong_chain : ℕ
  pub recovered : ℕ

pub data ExecutionOutcome : Type 0 where
  settled recovered_only wrong_chain no_events : ExecutionOutcome

pub record ReceiptLog : Type 0 where
  pub address : ℕ
  pub topics : List ℕ

module _ (sig : EventTopics) (payment_address : ℕ) where
  -- The loop, after `recovered` of the logs so far.
  unfoldable pub scan_logs : Bool → List ReceiptLog → ExecutionOutcome
  scan_logs recovered [] = if recovered then recovered_only else no_events
  scan_logs recovered (log ∷ logs) =
      let rest = scan_logs recovered logs in
      let seen = scan_logs true logs in
      if log.address == payment_address
      then (elim log.topics [
        | [] ↦ rest
        | topic ∷ _ ↦
            if topic == sig.settled
            then settled
            else if topic == sig.wrong_chain
            then wrong_chain
            else if topic == sig.recovered
            then seen
            else rest
      ])
      else rest

  unfoldable pub execution_outcome : List ReceiptLog → ExecutionOutcome
  unfolding scan_logs
  execution_outcome logs = scan_logs false logs

-- The seven terms that the payment address commits to.
pub record PaymentTerms : Type 0 where
  pub token : ℕ
  pub amount : ℕ
  pub calls : List CallView
  pub expiration_timestamp : ℕ
  pub recovery : ℕ
  pub salt : ℕ
  pub chain_id : ℕ

-- src/deposit/mod.rs, `Deposit::terms`: the expiry in whole seconds.
unfoldable pub terms : Deposit → PaymentTerms
terms d = record {
  token = d.token_address;
  amount = d.amount;
  calls = d.calls;
  expiration_timestamp = d.expires_at / 1000;
  recovery = d.recovery;
  salt = d.salt;
  chain_id = d.chain_id;
}
