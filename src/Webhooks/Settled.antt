-- ===== src/Webhooks/Settled.antt =====
-- When an engine event settles a deposit.
use gum_server.Prelude.{
  ℕ, String, ◌≡◌, sym, ◌∙◌, true, false, Option, inl, inr, none, some, List, arith, str_eq, first,
  Bool-cases, Option-cases,
}
use gum_server.Prelude.Json.{Value, with_field}
use gum_server.Deposit.{Deposit}
use gum_server.Chain.Payment.{
  ExecutionOutcome, recovered_only, wrong_chain, no_events, ReceiptLog, execution_outcome,
  EventTopics,
}
use gum_server.Chain.Payment as Payment
use gum_server.Chain.Outcomes.{is_settled_log, is_decisive, outcome_of, execution_outcome_lem}
use gum_server.Webhooks.Outcome.{
  EngineError, Receipt, EngineEvent, Mined, settled, ChainCodec, engine_failure, receipt_logs,
  receipt_json, of_execution, of_outcome, from_receipt, event_json, from_event,
}

-- The first decisive log of the address is a settlement.
pub record IsSettledBy (sig : EventTopics) (address : ℕ) (logs : List ReceiptLog) : Type 0 where
  pub log : ReceiptLog
  pub decisive : first (is_decisive sig address) logs ≡ some log
  pub settles : is_settled_log sig address log ≡ true

outcome_of-settled :
    (sig : EventTopics) (address : ℕ) (logs : List ReceiptLog)
    → outcome_of sig address false logs ≡ Payment.settled
    → IsSettledBy sig address logs
outcome_of-settled sig address logs h = elim (Option-cases (first (is_decisive sig address) logs)) [
  | inl e ↦ ground arith
  | inr (log, e) ↦ record { log = log; decisive = e; settles = ground arith }
]

module _ (chain : ChainCodec) where
  of_execution-settled :
      (x : ExecutionOutcome) (h : ℕ) (b : Option ℕ) (v : Value) (m : Mined)
      → of_execution chain x h b v ≡ settled m
      → x ≡ Payment.settled
  of_execution-settled x h b v m e = ground arith

  module _ (d : Deposit) (m : Mined) where
    of_outcome-settled :
        (o : Option String) (h : ℕ) (b : Option ℕ) (r : Option Receipt) (e : Option EngineError)
        (v : Value)
        → of_outcome chain o h b r e d v ≡ settled m
        → IsSettledBy chain.topics d.payment_address (receipt_logs chain r)
    unfolding engine_failure
    of_outcome-settled none h b r e v p = cc
    of_outcome-settled (some o) h b r e v p = elim (Bool-cases (str_eq o "success")) [
      | inl y ↦
          let q : of_execution chain
                (execution_outcome chain.topics d.payment_address (receipt_logs chain r)) h b v
              ≡ settled m =
            ground arith in
          outcome_of-settled chain.topics d.payment_address (receipt_logs chain r) (
            sym (execution_outcome_lem chain.topics d.payment_address (receipt_logs chain r))
            ∙ of_execution-settled _ h b v m q)
      | inr n ↦ ground arith
    ]

    from_receipt-settled :
        (o : Option String) (h : Option ℕ) (b : Option ℕ) (r : Option Receipt)
        (e : Option EngineError) (v : Value)
        → from_receipt chain o h b r e d v ≡ settled m
        → IsSettledBy chain.topics d.payment_address (receipt_logs chain r)
    unfolding from_receipt
    from_receipt-settled o none b r e v p = cc
    from_receipt-settled o (some h) b r e v p =
        of_outcome-settled o h b r e (with_field "receipt" (receipt_json chain r) v) p

    -- An engine event settles a deposit only where the first decisive log of the deposit's payment
    -- address in the event's receipt is a settlement.
    pub from_event-settled :
        (event : EngineEvent)
        → from_event chain event d ≡ settled m
        → IsSettledBy chain.topics d.payment_address (receipt_logs chain event.receipt)
    unfolding from_event engine_failure
    from_event-settled event p = elim (Bool-cases (str_eq event.event "transaction.included")) [
      | inl y ↦ ground arith
      | inr n ↦ elim (Bool-cases (str_eq event.event "transaction.confirmed")) [
        | inl y ↦
            from_receipt-settled event.outcome event.tx_hash event.block_number event.receipt
              event.error (event_json chain event) (ground arith)
        | inr k ↦ ground arith
      ]
    ]
