-- ===== src/Store/Transitions.antt =====
-- src/deposit/store.rs, "Transitions": each guarded UPDATE with the event and the jobs that are
-- committed with it. `none` means that the row was not in an eligible state.
use gum_server.Prelude.{
  ℕ, String, Bool, true, ◌&&◌, not, Option, none, some, List, ◌==◌, if◌then◌else◌, is_some,
  coalesce,
}
use gum_server.Prelude.Json.{Value, number, string, field, object, end, empty_object, with_field}
use gum_server.Deposit.{Deposit}
use gum_server.Deposit.Status.{
  partial_paid, paid, settled, failed, expired, is_open, is_paid, is_failed,
}
use gum_server.Deposit.Events as Events
use gum_server.Store.Db.{
  Tx, ok, pure, ◌>>=◌, ◌>>◌, on_some, register_watch, no_payload, row, update_row, update_deposit,
}
use gum_server.Store.Record.{record_event, enqueue, enqueue_execute}

abbrev pub is_unwatched : Deposit → Bool
is_unwatched d = not (is_some d.watch_id)

unfoldable pub mark_watch_registered : ℕ → ℕ → Tx (Option Deposit)
mark_watch_registered id watch_id = do
  deposit ←
      update_deposit id is_unwatched
        (λ now d. record d { watch_id = some watch_id; watch_registered_at = some now })
  on_some deposit λ d. do
    record_event d Events.watch_registered (object (field "watch_id" (number watch_id) end))
    pure tt
  pure deposit

-- A transfer was seen at chain head.
unfoldable pub apply_payment_pending : ℕ → Value → Tx (Option Deposit)
apply_payment_pending id event_data = do
  deposit ←
      update_deposit id (λ d. is_open d.status)
        (λ now d. record d {
          status = partial_paid;
          detected_at = coalesce d.detected_at (some now);
        })
  on_some deposit λ d. do record_event d Events.detected event_data; pure tt
  pure deposit

-- A transfer was confirmed; `confirmed` is the watch's new confirmed total.
unfoldable pub apply_payment_confirmed : ℕ → ℕ → Value → Tx (Option Deposit)
apply_payment_confirmed id confirmed event_data = do
  deposit ←
      update_deposit id (λ d. is_open d.status)
        (λ now d. record d {
          status = partial_paid;
          detected_at = coalesce d.detected_at (some now);
          confirmed_amount = confirmed;
        })
  on_some deposit λ d. do record_event d Events.payment_confirmed event_data; pure tt
  pure deposit

-- SELECT … WHERE id = $1
unfoldable pub get : ℕ → Tx (Option Deposit)
get id db = ok (row id db.deposits) db

-- A pending transfer was reorged out.
unfoldable pub apply_payment_orphaned : ℕ → Value → Tx (Option Deposit)
unfolding get
apply_payment_orphaned id event_data = do
  deposit ← get id
  on_some deposit λ d. do record_event d Events.payment_orphaned event_data; pure tt
  pure deposit

-- The confirmed total reached the amount: submit settlement.
unfoldable pub apply_threshold_reached : ℕ → ℕ → Value → Tx (Option Deposit)
apply_threshold_reached id confirmed event_data = do
  deposit ←
      update_deposit id (λ d. is_open d.status)
        (λ now d. record d {
          status = paid;
          detected_at = coalesce d.detected_at (some now);
          confirmed_amount = confirmed;
        })
  on_some deposit
      λ d. do event ← record_event d Events.ready event_data; enqueue_execute d.id event.sequence
  pure deposit

unfoldable pub apply_expired : ℕ → Value → Tx (Option Deposit)
apply_expired id event_data = do
  deposit ←
      update_deposit id (λ d. is_open d.status)
        (λ now d. record d { status = expired; expired_at = some now })
  on_some deposit λ d. do record_event d Events.expired event_data; pure tt
  pure deposit

-- status = 'paid' AND (engine_job_id IS NULL OR engine_job_id = $2)
abbrev pub accepts_job : ℕ → Deposit → Bool
accepts_job job_id d =
    is_paid d.status && (elim d.engine_job_id [ none ↦ true | some j ↦ j == job_id ])

unfoldable pub mark_engine_submitted : ℕ → ℕ → Bool → Tx (Option Deposit)
mark_engine_submitted id job_id replayed = do
  deposit ←
      update_deposit id (accepts_job job_id)
        (λ now d. record d { engine_job_id = some job_id; engine_submitted_at = some now })
  on_some deposit λ d. if replayed then pure tt else do
    record_event d Events.settlement_submitted (object (field "engine_job_id" (number job_id) end))
    pure tt
  pure deposit

unfoldable pub apply_settlement_included : ℕ → ℕ → Option ℕ → Value → Tx (Option Deposit)
apply_settlement_included id tx_hash block_number event_data = do
  deposit ←
      update_deposit id (λ d. is_paid d.status)
        (λ now d. record d { tx_hash = some tx_hash; block_number = block_number })
  on_some deposit λ d. do record_event d Events.settlement_included event_data; pure tt
  pure deposit

unfoldable pub apply_settled : ℕ → ℕ → Option ℕ → Value → Tx (Option Deposit)
apply_settled id tx_hash block_number event_data = do
  deposit ←
      update_deposit id (λ d. is_paid d.status)
        (λ now d. record d {
          status = settled;
          settled_at = some now;
          tx_hash = some tx_hash;
          block_number = coalesce block_number d.block_number;
        })
  on_some deposit λ d. do record_event d Events.settled event_data; pure tt
  pure deposit

unfoldable pub apply_failed :
    ℕ → String → String → Option ℕ → Option (List ℕ) → Value → Tx (Option Deposit)
apply_failed id code message tx_hash revert_data event_data = do
  deposit ←
      update_deposit id (λ d. is_paid d.status)
        (λ now d. record d {
          status = failed;
          failed_at = some now;
          failure_code = some code;
          failure_message = some message;
          tx_hash = coalesce tx_hash d.tx_hash;
          failure_revert_data = revert_data;
        })
  on_some deposit
      λ d. do record_event d Events.failed (with_field "code" (string code) event_data); pure tt
  pure deposit

-- Operator retry: a failed deposit goes back to `paid` and a fresh `execute` is queued.
unfoldable pub retry_settlement : ℕ → Tx (Option Deposit)
retry_settlement id = do
  deposit ←
      update_deposit id (λ d. is_failed d.status)
        (λ now d. record d {
          status = paid;
          engine_job_id = none;
          engine_submitted_at = none;
          failure_code = none;
          failure_message = none;
          failure_revert_data = none;
          failed_at = none;
        })
  on_some deposit λ d. do
    event ← record_event d Events.settlement_retried empty_object
    enqueue_execute d.id event.sequence
  pure deposit

-- Forgets a watch that the indexer does not know and queues a fresh registration.
unfoldable pub reregister_watch : ℕ → Tx Bool
reregister_watch id = do
  deposit ←
      update_deposit id (λ d. is_open d.status)
        (λ now d. record d { watch_id = none; watch_registered_at = none })
  on_some deposit
      λ d. do record_event d Events.watch_lost empty_object; enqueue register_watch d.id no_payload
  pure (is_some deposit)

-- UPDATE deposits SET updated_at = now() WHERE id = $1
unfoldable pub touch : ℕ → Tx (Unit {0})
touch id = do update_deposit id (λ d. true) (λ now d. d); pure tt

-- src/outbox/mod.rs: fails a deposit that has not been paid yet.
unfoldable pub fail_open : ℕ → String → String → Tx (Unit {0})
fail_open id code message = do
  deposit ←
      update_deposit id (λ d. is_open d.status)
        (λ now d. record d {
          status = failed;
          failed_at = some now;
          failure_code = some code;
          failure_message = some message;
        })
  on_some deposit λ d. do
    record_event d Events.failed
        (object (field "code" (string code) (field "message" (string message) end)))
    pure tt

-- src/webhooks/inbound.rs: detaches a still-paid deposit from its engine job and queues a fresh
-- `execute`.
unfoldable pub resubmit : ℕ → Value → Tx Bool
resubmit id event_data = do
  deposit ←
      update_deposit id (λ d. is_paid d.status)
        (λ now d. record d { engine_job_id = none; engine_submitted_at = none })
  on_some deposit λ d. do
    event ← record_event d Events.settlement_retried event_data
    enqueue_execute d.id event.sequence
  pure (is_some deposit)

-- src/webhooks/inbound.rs: the watch id that an event names, where none was recorded yet.
unfoldable pub attach_watch : ℕ → ℕ → Tx (Unit {0})
attach_watch id watch_id = do
  update_row id is_unwatched (λ now d. record d {
    watch_id = some watch_id;
    watch_registered_at = coalesce d.watch_registered_at (some now);
  })
  pure tt
