-- ===== src/Examples.antt =====
-- Runs at concrete inputs: the definitions as tests, and each result at an input where what it asks for
-- holds.
pub mod Routes
pub mod Handler
pub mod Pay
pub mod Submitted
pub mod Requests
use mathlib.Core.Path.{subst}
use gum_server.Prelude.{
  ℕ, ◌+◌, ◌*◌, ◌≤◌, ◌<◌, ◌≡◌, ◌⊎◌, ◌↔◌, refl, String, true, false, Option, none, some, List, [],
  ◌∷◌, arith, ◌==◌, if◌then◌else◌, length, All, map, append, any,
}
use gum_server.Prelude.Json.{null, empty_object}
use gum_server.Prelude.Text.{decimal, hex_address}
use gum_server.Deposit.{Deposit, DepositEvent}
use gum_server.Deposit.Status.{DepositStatus, pending, paid, as_str, parse}
use gum_server.Deposit.Status as Status
use gum_server.Deposit.Events as Events
use gum_server.Deposit.Events.{is_app_facing}
use gum_server.Deposit.Lifecycle.{Later, IsConsistent}
use gum_server.Deposit.Parsing.{parse-as_str}
use gum_server.Chain.Payment.{EventTopics, ReceiptLog, execution_outcome}
use gum_server.Chain.Payment as Payment
use gum_server.Chain.Outcomes.{outcome_of, execution_outcome_lem}
use gum_server.Chain.Revert.View.{of_execute}
use gum_server.Chain.Revert.Levels.{levels, IsNamed, of_execute-IsNamed}
use gum_server.Store.Db.{
  Db, ok, err, unavailable, after, row, replace, update_row, update_deposit, bump_event_seq, now_v7,
  clock, insert_event, pg_notify, insert_job, OutboxJob, register_watch, submit_execute, notify_app,
  sequenced, no_payload,
}
use gum_server.Store.Record.{
  claim_inbound, record_event, execute_payload, new_job, notify_app_of, webhook_url_for, enqueue,
}
use gum_server.Store.Recorded.{bumped}
use gum_server.Store.Numbering.{Numbered, sequences, countdown}
use gum_server.Store.Evolution.{AllConsistent}
use gum_server.Store.Create.{
  NewDeposit, Idempotency, Meanwhile, new_row, insert_new, insert_deposit, claim_key,
  claim_optional, create_deposit, replayed, conflict,
}
use gum_server.Store.Transitions.{
  attach_watch, apply_payment_pending, apply_threshold_reached, resubmit,
}
use gum_server.Store.Effects.{IsNotice, paid_row, threshold_reached}
use gum_server.Store.Notified.{notification_jobs, record_event-Numbered}
use gum_server.Store.Once.{threshold_once}
use gum_server.Store.Replay.{create-replay}
use gum_server.Webhooks.Outcome.{
  Receipt, Mined, event_json, receipt_logs, from_event, ChainCodec, EngineEvent, Failure,
}
use gum_server.Webhooks.Inbound.{
  find_in, find_watched, apply_watched, apply_indexer_type, IndexerEvent, unknown_deposit,
  duplicate, applied, apply_indexer_event, apply_engine_event, apply_failure, record_failure,
  resubmit_json,
}
use gum_server.Webhooks.Settled.{IsSettledBy, from_event-settled}
use gum_server.Prelude.Json.{with_field}
use gum_server.Webhooks.Redelivery.{indexer_redelivered, engine_redelivered}
use gum_server.Outbox.Schedule.{RetryConfig, is_notify, retry_after, give_up, schedule}
use gum_server.Outbox.Backoff.{IsDelay, schedule-bounds}
use gum_server.Outbox.Queue.{claim, due_batch, locked, has_id}
use gum_server.Outbox.Claims.{is_free, IsApart, claim-free, claim-exclusive}
use gum_server.Outbox.Jobs.{Upstreams, replied, failing, execute_job}
use gum_server.Reconciler.{Polls, ReconcilerConfig, unknown, reached, tick}
use gum_server.System.{Op, expired, watch_refused, settlement_retried, elapsed, run, after_insert}
use gum_server.System.Deposits.{run-Evolves, run-AllConsistent, run-Numbered, run-final}
use gum_server.System.Retries.{retried_unpaid}

abbrev order : NewDeposit
order = record {
  chain_id = 8453;
  token_symbol = "USDC";
  token_address = 77;
  token_decimals = 6;
  amount = 2_500_000;
  receiver = 5;
  calls = [];
  recovery = 6;
  salt = 9;
  expires_at = 90_000_000;
  payment_address = 4242;
  reference = none;
  webhook_url = some "https://app.example/hook";
}

abbrev pub first_row : Deposit
first_row = new_row 1 "app" order 1_000

abbrev expired_row : Deposit
expired_row = record first_row { status = Status.expired; expired_at = some 90_000_001 }

-- A register_watch job of the deposit, due at once.
abbrev watch_job : OutboxJob
watch_job = new_job 50 1_000 register_watch 1 no_payload

abbrev pub db_of : List Deposit → Db
db_of ds = record {
  now = 5_000;
  uuids = λ n. n + 100;
  drawn = 0;
  users = [];
  deposits = ds;
  timeline = [];
  outbox = watch_job ∷ [];
  inbound = [];
  idempotency = [];
  notified = [];
}

abbrev one_db : Db
one_db = db_of (first_row ∷ [])

abbrev pub none_recent : ℕ → Option ℕ
none_recent n = none

one_db-Numbered : Numbered one_db.deposits one_db.timeline
unfolding sequences countdown row
one_db-Numbered j = ground arith

first_row-IsConsistent : IsConsistent first_row
first_row-IsConsistent = ground arith

one_db-AllConsistent : AllConsistent one_db.deposits
unfolding row
one_db-AllConsistent j d h =
    let hit : first_row ≡ d = ground arith in subst IsConsistent hit first_row-IsConsistent

-- A chain whose calldata decodes to nothing.
abbrev pub no_codec : ChainCodec
no_codec = record {
  abi = record {
    payment_error = λ b. none;
    factory_error = λ b. none;
    target_error = λ b. none;
    revert_string = λ b. none;
    panic_code = λ b. none;
    panic_kind = λ n. none;
    transfer_call = λ b. none;
  };
  topics = record { settled = 11; wrong_chain = 12; recovered = 13 };
}

abbrev late : List Op
late = elapsed 100_000_000 ∷ expired 1 empty_object ∷ []

run-Evolves_example :
    (e : Deposit) × (row 1 (run no_codec none_recent late one_db).deposits ≡ some e)
    × Later first_row e
unfolding row
run-Evolves_example = run-Evolves no_codec none_recent late one_db 1 first_row refl

run-final_example :
    (e : Deposit) × (row 1 (run no_codec none_recent late (db_of (expired_row ∷ []))).deposits
      ≡ some e)
    × (e.status ≡ Status.expired)
unfolding row
run-final_example =
    run-final no_codec none_recent late (db_of (expired_row ∷ [])) 1 expired_row refl refl

run-AllConsistent_example : AllConsistent (run no_codec none_recent late one_db).deposits
run-AllConsistent_example = run-AllConsistent no_codec none_recent late one_db one_db-AllConsistent

run-Numbered_example :
    let db' = run no_codec none_recent late one_db in Numbered db'.deposits db'.timeline
run-Numbered_example = run-Numbered no_codec none_recent late one_db one_db-Numbered

abbrev pub upstreams : Upstreams
upstreams = record {
  indexer_configured = true;
  create_watch = λ w. replied 31;
  engine_configured = true;
  submit = λ t k. failing "engine unreachable";
  deliver = λ url secret body. none;
  factory = 3;
  execute_calldata = λ t. [];
}

abbrev pub retries_config : RetryConfig
retries_config = record {
  retry_base_ms = 1_000;
  retry_cap_ms = 900_000;
  max_age_secs = 172_800;
  upstream_retry_cap_ms = 30_000;
}

threshold_reached_example :
    let new = paid_row 2_500_000 5_000 first_row in
    (db' : Db) × (apply_threshold_reached 1 2_500_000 null one_db ≡ ok (some new) db')
    × (row 1 db'.deposits ≡ some (bumped new))
    × (job : OutboxJob) × (told : List OutboxJob) × (db'.outbox ≡ job ∷ append told one_db.outbox)
    × (job.kind ≡ submit_execute)
    × (job.deposit_id ≡ 1)
    × (job.payload ≡ execute_payload (sequenced 1 1))
    × IsNotice 1 told
unfolding row
threshold_reached_example =
    threshold_reached 1 one_db first_row null one_db-Numbered refl 2_500_000 refl

record_event-Numbered_example :
    (e : DepositEvent) × (db' : Db) × (record_event first_row Events.ready null one_db ≡ ok e db')
    × (e.sequence ≡ 1)
    × (e.event_type ≡ Events.ready)
    × (db'.timeline ≡ e ∷ [])
    × (db'.outbox ≡ append (notification_jobs first_row e one_db) one_db.outbox)
unfolding row
record_event-Numbered_example =
    record_event-Numbered first_row Events.ready null one_db first_row one_db-Numbered refl

retried_unpaid_example :
    let db' =
      run no_codec none_recent
        (watch_refused 1 "watch_rejected" "no such token" ∷ settlement_retried 1 ∷ [])
        one_db in
    (e : Deposit) × (row 1 db'.deposits ≡ some e)
    × (e.status ≡ paid)
    × (e.confirmed_amount ≡ 0)
    × (job : OutboxJob) × (rest : List OutboxJob) × (db'.outbox ≡ job ∷ rest)
    × (job.kind ≡ submit_execute)
unfolding row
retried_unpaid_example =
    retried_unpaid no_codec none_recent 1 "watch_rejected" "no such token" one_db first_row
      one_db-Numbered refl refl

parse-as_str_example :
    (parse (as_str paid) ≡ some paid) × ((parse "paid" ≡ some paid) ↔ ("paid" ≡ as_str paid))
parse-as_str_example = parse-as_str paid "paid"

abbrev logs : List ReceiptLog
logs = record { address = 1; topics = 11 ∷ [] } ∷ record { address = 4242; topics = 13 ∷ [] } ∷ []

execution_outcome_lem_example :
    execution_outcome no_codec.topics 4242 logs ≡ outcome_of no_codec.topics 4242 false logs
execution_outcome_lem_example = execution_outcome_lem no_codec.topics 4242 logs

recovered_test : execution_outcome no_codec.topics 4242 logs ≡ Payment.recovered_only
unfolding execution_outcome
recovered_test = refl

claim-free_example :
    let due = due_batch (λ n. false) 16 5_000 one_db.outbox in
    ((claim (λ n. false) 16 120 one_db).0 ≡ map (locked (5_000 + 120 * 1000)) due)
    × (length due ≤ 16)
    × All (λ o. is_free (λ n. false) one_db o ≡ true) due
    × All (λ o. All (IsApart o) due) due
claim-free_example = claim-free (λ n. false) 16 one_db 120

claim_test : due_batch (λ n. false) 16 5_000 one_db.outbox ≡ watch_job ∷ []
unfolding due_batch
claim_test = refl

schedule-bounds_example :
    ((notify_app ≡ notify_app)
      × (172_800 < 10)
      × (schedule retries_config notify_app 3 10 77 ≡ give_up))
    ⊎ (((is_notify notify_app ≡ false) ⊎ (10 ≤ 172_800))
        × (delay : ℕ) × (schedule retries_config notify_app 3 10 77 ≡ retry_after delay)
        × IsDelay retries_config notify_app delay)
schedule-bounds_example = schedule-bounds retries_config notify_app 3 10 77 (omega arith)

decimal_test : decimal 2500000 ≡ "2500000"
unfolding decimal
decimal_test = refl

hex_test : hex_address 255 ≡ "0x00000000000000000000000000000000000000ff"
unfolding hex_address
hex_test = refl

abbrev stuck : Failure
stuck = record {
  code = "engine_internal";
  message = "broadcast failed";
  tx_hash = none;
  revert_data = none;
  event_data = empty_object;
}

abbrev mined : EngineEvent
mined = record {
  event_id = "evt_1";
  event = "transaction.mined";
  job_id = 900;
  outcome = some "executed";
  tx_hash = some 12;
  block_number = some 7;
  receipt = none;
  reincluded = false;
  error = none;
}

abbrev detected : IndexerEvent
detected = record {
  id = "idx_1";
  event_type = "payment.pending";
  watch = record { id = 31; chain_id = 8453; payment_address = 4242; confirmed_amount = none };
  transfer = none;
}

abbrev claimed_db : String → String → Db → Db
claimed_db source event_id db = record db {
  inbound = record { source = source; event_id = event_id; received_at = db.now } ∷ db.inbound;
}

abbrev detected_db : Db
detected_db = after one_db (apply_indexer_event detected one_db)

indexer_redelivered_example : apply_indexer_event detected detected_db ≡ ok duplicate detected_db
unfolding apply_indexer_event claim_inbound find_in find_watched apply_watched attach_watch
    update_row row replace apply_indexer_type apply_payment_pending update_deposit record_event
    bump_event_seq now_v7 clock insert_event pg_notify notify_app_of webhook_url_for enqueue
    insert_job is_app_facing
indexer_redelivered_example = indexer_redelivered detected applied one_db detected_db refl

engine_redelivered_example :
    apply_engine_event no_codec none_recent mined (claimed_db "engine" "evt_1" one_db)
    ≡ ok duplicate (claimed_db "engine" "evt_1" one_db)
unfolding apply_engine_event claim_inbound find_in
engine_redelivered_example =
    engine_redelivered no_codec none_recent mined unknown_deposit one_db
      (claimed_db "engine" "evt_1" one_db) refl

abbrev idem : Idempotency
idem = record { key = "order-1"; fingerprint = 60 }

abbrev nobody : Meanwhile
nobody = record { after_lookup = λ x. x; after_rollback = λ x. x }

abbrev pub empty_db : Db
empty_db = record (db_of []) { outbox = [] }

abbrev created_row : Deposit
created_row = new_row 100 "app" order 5_000

abbrev created_db : Db
created_db = after_insert empty_db (insert_new "app" order (some idem) empty_db)

create-replay_example :
    (e : Deposit) × (row 100 created_db.deposits ≡ some e)
    × (create_deposit nobody "app" order
          (some (record { key = "order-1"; fingerprint = 61 }))
          created_db
        ≡ ok (if 60 == 61 then replayed e else conflict) created_db)
unfolding insert_new insert_deposit claim_optional claim_key row replace record_event bump_event_seq
    now_v7 clock insert_event pg_notify notify_app_of webhook_url_for enqueue insert_job
    is_app_facing
create-replay_example =
    create-replay "app" idem order order 61 nobody created_row empty_db created_db refl

claim-exclusive_example :
    let rows = (claim (λ n. false) 16 120 one_db).1.outbox in
    All
      (λ p. any (has_id p.id) (due_batch (λ n. false) 16 5_000 one_db.outbox) ≡ false)
      (due_batch (λ n. false) 16 (5_000 + 60_000) rows)
claim-exclusive_example =
    claim-exclusive (λ n. false) (λ n. false) 16 16 120 60_000 one_db (omega arith)

of_execute-IsNamed_example : All IsNamed (levels (of_execute no_codec.abi (8 ∷ 195 ∷ []) []))
of_execute-IsNamed_example = of_execute-IsNamed no_codec.abi (8 ∷ 195 ∷ []) []

threshold_once_example :
    (db' : Db) × (apply_threshold_reached 1 2_500_000 null one_db
      ≡ ok (some (paid_row 2_500_000 5_000 first_row)) db')
    × (apply_threshold_reached 1 3_000_000 null db' ≡ ok none db')
unfolding row
threshold_once_example =
    threshold_once 1 2_500_000 3_000_000 null null one_db first_row one_db-Numbered refl refl

abbrev receipt : Receipt
receipt = record {
  json = null;
  logs = some (record { address = 4242; topics = 11 ∷ 77 ∷ [] } ∷ []);
}

abbrev confirmation : EngineEvent
confirmation = record mined {
  event = "transaction.confirmed";
  outcome = some "success";
  receipt = some receipt;
}

abbrev settlement : Mined
settlement = record {
  tx_hash = 12;
  block_number = some 7;
  event_data = with_field "receipt" null (event_json no_codec confirmation);
}

from_event-settled_example : IsSettledBy no_codec.topics 4242 (receipt_logs no_codec (some receipt))
unfolding from_event with_field execution_outcome
from_event-settled_example = from_event-settled no_codec first_row settlement confirmation refl
