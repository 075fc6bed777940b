-- ===== src/Chain/Outcomes.antt =====
-- `execution_outcome` against a description without its loop.
use gum_server.Prelude.{
  ℕ, ◌≡◌, Bool, true, false, ◌&&◌, ◌||◌, none, some, List, [], ◌∷◌, arith, ◌==◌, if◌then◌else◌,
  first, any,
}
use gum_server.Chain.Payment.{
  EventTopics, ExecutionOutcome, settled, recovered_only, wrong_chain, no_events, ReceiptLog,
  scan_logs, execution_outcome,
}

-- The log's first topic is `t`.
abbrev has_topic : ℕ → List ℕ → Bool
has_topic t [] = false
has_topic t (x ∷ xs) = x == t

module _ (sig : EventTopics) (payment_address : ℕ) where
  abbrev pub is_settled_log : ReceiptLog → Bool
  is_settled_log log = log.address == payment_address && has_topic sig.settled log.topics

  abbrev pub is_wrong_chain_log : ReceiptLog → Bool
  is_wrong_chain_log log = log.address == payment_address && has_topic sig.wrong_chain log.topics

  abbrev pub is_recovered_log : ReceiptLog → Bool
  is_recovered_log log = log.address == payment_address && has_topic sig.recovered log.topics

  abbrev pub is_decisive : ReceiptLog → Bool
  is_decisive log = is_settled_log log || is_wrong_chain_log log

  -- The first decisive log decides; without one, a recovery is the outcome if there was one.
  abbrev pub outcome_of : Bool → List ReceiptLog → ExecutionOutcome
  outcome_of recovered logs = elim (first is_decisive logs) [
    | some log ↦ if is_settled_log log then settled else wrong_chain
    | none ↦ if recovered || any is_recovered_log logs then recovered_only else no_events
  ]

  scan_logs_lem :
      (recovered : Bool) (logs : List ReceiptLog)
      → scan_logs sig payment_address recovered logs ≡ outcome_of recovered logs
  unfolding scan_logs
  scan_logs_lem recovered [] = ground arith
  scan_logs_lem recovered (log ∷ logs) =
      ground (arith, scan_logs_lem recovered logs, scan_logs_lem true logs)

  -- The outcome of an execution is that of the first log of the payment address that is a settlement
  -- or a wrong-chain event; without one, it is a recovery if that address logged one, else nothing.
  pub execution_outcome_lem :
      (logs : List ReceiptLog) → execution_outcome sig payment_address logs ≡ outcome_of false logs
  unfolding execution_outcome
  execution_outcome_lem logs = scan_logs_lem false logs
