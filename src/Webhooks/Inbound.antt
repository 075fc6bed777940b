-- ===== src/Webhooks/Inbound.antt =====
-- src/webhooks/inbound.rs: the handlers of gum-indexer's and gum-engine's deliveries, each one
-- transaction that claims the event id and applies the event.
use gum_server.Prelude.{
  ℕ, ◌-◌, ◌/◌, String, Bool, true, false, ◌&&◌, ◌||◌, not, Option, none, some, List, ◌==◌, ltb,
  str_eq, if◌then◌else◌, is_some, is_value, unwrap_or, first, count_if,
}
use gum_server.Prelude.Json.{Value, null, boolean, number, string, object, field, end}
use gum_server.Prelude.Text.{strip_prefix}
use gum_server.Deposit.{Deposit, DepositEvent}
use gum_server.Deposit.Events.{is_retried}
use gum_server.Store.Db.{Db, Tx, ok, unavailable, pure, throw, ◌>>=◌, ◌>>◌, on_true}
use gum_server.Store.Record.{claim_inbound}
use gum_server.Store.Transitions.{
  attach_watch, apply_payment_pending, apply_payment_confirmed, apply_payment_orphaned,
  apply_threshold_reached, apply_expired, apply_settlement_included, apply_settled, apply_failed,
  resubmit,
}
use gum_server.Webhooks.Outcome.{
  EngineEvent, Failure, SettlementOutcome, included, settled, failed, pending, ChainCodec,
  from_event,
}

-- `confirmed_amount` as a number, where it is there and reads as one.
pub record IndexerWatch : Type 0 where
  pub id : ℕ
  pub chain_id : ℕ
  pub payment_address : ℕ
  pub confirmed_amount : Option ℕ

pub record IndexerEvent : Type 0 where
  pub id : String
  pub event_type : String
  pub watch : IndexerWatch
  pub transfer : Option Value

abbrev pub confirmed : IndexerWatch → ℕ
confirmed w = unwrap_or w.confirmed_amount 0

-- The answer to a delivery that is acknowledged with 200.
pub data Ack : Type 0 where
  duplicate unknown_deposit applied ignored : Ack

abbrev ack_of : Bool → Ack
ack_of true = applied
ack_of false = ignored

abbrev pub transfer_json : Option Value → Value
transfer_json none = null
transfer_json (some v) = v

abbrev pub indexer_json : IndexerEvent → Value
indexer_json event = object (
    field "indexer_event_id" (string event.id) (
      field "transfer" (transfer_json event.transfer)
        (field "confirmed_amount" (number (confirmed event.watch)) end)))

-- `get_by_watch`, else `get_by_payment_address`.
unfoldable pub find_watched : IndexerWatch → List Deposit → Option Deposit
find_watched w ds = elim (first (λ d. is_value w.id d.watch_id) ds) [
  | some d ↦ some d
  | none ↦ first (λ d. d.chain_id == w.chain_id && d.payment_address == w.payment_address) ds
]

unfoldable pub apply_indexer_type : Deposit → IndexerEvent → Tx (Option Deposit)
apply_indexer_type d event =
    let v = indexer_json event in
    if str_eq event.event_type "payment.pending"
    then apply_payment_pending d.id v
    else if str_eq event.event_type "payment.confirmed"
    then apply_payment_confirmed d.id (confirmed event.watch) v
    else if str_eq event.event_type "payment.orphaned"
    then apply_payment_orphaned d.id v
    else if str_eq event.event_type "threshold.reached"
    then apply_threshold_reached d.id (confirmed event.watch) v
    else if str_eq event.event_type "watch.expired"
    then apply_expired d.id v
    else pure none

unfoldable pub apply_watched : IndexerEvent → Option Deposit → Tx Ack
unfolding apply_indexer_type
apply_watched event none = pure unknown_deposit
apply_watched event (some d) = do
  on_true (not (is_some d.watch_id)) (attach_watch d.id event.watch.id)
  r ← apply_indexer_type d event
  pure (ack_of (is_some r))

unfoldable pub find_in : {A : Type 0} → (Db → A) → Tx A
find_in f db = ok (f db) db

abbrev pub unless_duplicate : Bool → Tx Ack → Tx Ack
unless_duplicate false m = pure duplicate
unless_duplicate true m = m

unfoldable pub apply_indexer_event : IndexerEvent → Tx Ack
unfolding apply_watched
apply_indexer_event event = do
  fresh ← claim_inbound "indexer" event.id
  unless_duplicate fresh
      (do d ← find_in (λ db. find_watched event.watch db.deposits); apply_watched event d)

-- RETRYABLE_ENGINE_ERRORS and MAX_AUTO_RETRIES
abbrev pub is_retryable : String → Bool
is_retryable code =
    str_eq code "expired" || (str_eq code "stuck_cancelled" || str_eq code "internal")

abbrev pub max_auto_retries : ℕ
max_auto_retries = 3

-- SELECT count(*) FROM deposit_events WHERE deposit_id = $1 AND type = 'deposit.settlement_retried'
abbrev pub retries : ℕ → List DepositEvent → ℕ
retries id = count_if (λ e. e.deposit_id == id && is_retried e.event_type)

abbrev pub resubmit_json : Failure → Value
resubmit_json f = object (
    field "automatic" (boolean true)
      (field "reason" (string f.code) (field "detail" (string f.message) end)))

unfoldable pub record_failure : Deposit → Failure → Tx Bool
record_failure d f = do
  r ← apply_failed d.id f.code f.message f.tx_hash f.revert_data f.event_data
  pure (is_some r)

abbrev pub engine_code : Failure → String
engine_code f = unwrap_or (strip_prefix "engine_" f.code) f.code

unfoldable pub retry_or_record : Deposit → Failure → Tx Bool
unfolding record_failure
retry_or_record d f = do
  n ← find_in (λ db. retries d.id db.timeline)
  if ltb n max_auto_retries then resubmit d.id (resubmit_json f) else record_failure d f

-- A job that the engine gave up on before it executed is resubmitted a few times before the app is
-- told about a failure.
unfoldable pub apply_failure : Deposit → Failure → Tx Bool
unfolding retry_or_record
apply_failure d f =
    if is_retryable (engine_code f) && not (is_some f.tx_hash)
    then retry_or_record d f
    else record_failure d f

unfoldable pub apply_settlement : Deposit → SettlementOutcome → Tx Bool
unfolding apply_failure
apply_settlement d (included m) = do
  r ← apply_settlement_included d.id m.tx_hash m.block_number m.event_data
  pure (is_some r)
apply_settlement d (settled m) = do
  r ← apply_settled d.id m.tx_hash m.block_number m.event_data
  pure (is_some r)
apply_settlement d (failed f) = apply_failure d f
apply_settlement d pending = pure false

abbrev pub unknown_job_grace_secs : ℕ
unknown_job_grace_secs = 600

-- `now` in seconds, and the time in the job's UUIDv7, if it is one.
abbrev pub job_is_recent : ℕ → Option ℕ → Bool
job_is_recent now none = false
job_is_recent now (some created) = ltb (now - created) unknown_job_grace_secs

module _ (chain : ChainCodec) (uuid_time : ℕ → Option ℕ) where
  unfoldable pub apply_to_job : EngineEvent → Option Deposit → Tx Ack
  unfolding apply_settlement
  apply_to_job event none = do
    now ← find_in (λ db. db.now / 1000)
    if job_is_recent now (uuid_time event.job_id)
        then throw (unavailable "job_not_recorded_yet")
        else pure unknown_deposit
  apply_to_job event (some d) = do
    changed ← apply_settlement d (from_event chain event d)
    pure (ack_of changed)

  unfoldable pub apply_engine_event : EngineEvent → Tx Ack
  unfolding apply_to_job
  apply_engine_event event = do
    fresh ← claim_inbound "engine" event.event_id
    unless_duplicate fresh (do
      d ← find_in (λ db. first (λ d. is_value event.job_id d.engine_job_id) db.deposits)
      apply_to_job event d)
