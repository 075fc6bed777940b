-- ===== src/System.antt =====
-- The service as the sequence of its transactions. Whatever its replicas, workers, webhook handlers,
-- reconcilers and operators do to the database at once, Postgres commits it as some sequence of
-- these, with any arguments.
pub mod Safety
pub mod Deposits
pub mod Committed
pub mod Retries
use gum_server.Prelude.{ℕ, ◌+◌, String, Bool, Option, none, some, List, [], ◌∷◌}
use gum_server.Prelude.Json.{Value}
use gum_server.Deposit.{Deposit}
use gum_server.Store.Db.{Db, Tx, Result, ok, err, after, OutboxJob}
use gum_server.Store.Create.{NewDeposit, Idempotency, insert_new, prune}
use gum_server.Store.Transitions.{
  mark_watch_registered, apply_expired, mark_engine_submitted, apply_failed, retry_settlement,
  reregister_watch, touch, fail_open, resubmit,
}
use gum_server.Webhooks.Outcome.{EngineEvent, SettlementOutcome, ChainCodec}
use gum_server.Webhooks.Inbound.{
  IndexerEvent, apply_indexer_event, apply_engine_event, apply_settlement,
}
use gum_server.Outbox.Schedule.{RetryConfig}
use gum_server.Outbox.Queue.{claim, delete_job, mark_dead, retry_later, admin_requeue}
use gum_server.Reconciler.{WatchDetail, apply_watch}

pub data Op : Type 0 where
  -- POST /v1/deposit, POST /v1/webhooks/indexer and /v1/webhooks/engine
  create : String → NewDeposit → Option Idempotency → Op
  indexer_event : IndexerEvent → Op
  engine_event : EngineEvent → Op
  -- the outbox's jobs
  watch_registered : ℕ → ℕ → Op
  watch_refused : ℕ → String → String → Op
  expired : ℕ → Value → Op
  engine_submitted : ℕ → ℕ → Bool → Op
  submission_refused : ℕ → String → Value → Op
  -- the outbox's rows
  jobs_claimed : (ℕ → Bool) → ℕ → ℕ → Op
  job_done : ℕ → Op
  job_dead : ℕ → String → Op
  job_retried : RetryConfig → ℕ → OutboxJob → String → Op
  -- the reconciler, from rows that it read before
  watch_polled : ℕ → Deposit → ℕ → WatchDetail → Op
  watch_lost : ℕ → Op
  job_polled : Deposit → SettlementOutcome → Op
  job_lost : ℕ → Value → Op
  touched : ℕ → Op
  pruned : ℕ → Op
  -- an operator, and the clock
  settlement_retried : ℕ → Op
  job_requeued : ℕ → Op
  elapsed : ℕ → Op

-- The INSERTs of `create_deposit` are rolled back where the key was claimed by another session.
abbrev pub after_insert : Db → Result (Option Deposit) → Db
after_insert db (ok (some d) db') = db'
after_insert db (ok none db') = db
after_insert db (err e) = db

module _ (chain : ChainCodec) (uuid_time : ℕ → Option ℕ) where
  unfoldable pub step : Op → Db → Db
  step (create user new idem) db = after_insert db (insert_new user new idem db)
  step (indexer_event e) db = after db (apply_indexer_event e db)
  step (engine_event e) db = after db (apply_engine_event chain uuid_time e db)
  step (watch_registered id watch) db = after db (mark_watch_registered id watch db)
  step (watch_refused id code message) db = after db (fail_open id code message db)
  step (expired id v) db = after db (apply_expired id v db)
  step (engine_submitted id job replayed) db = after db (mark_engine_submitted id job replayed db)
  step (submission_refused id message v) db =
      after db (apply_failed id "engine_rejected" message none none v db)
  step (jobs_claimed held batch ttl) db = (claim held batch ttl db).1
  step (job_done id) db = delete_job id db
  step (job_dead id error) db = mark_dead id error db
  step (job_retried c jitter job error) db = retry_later c jitter job error db
  step (watch_polled now d watch_id w) db = after db (apply_watch now d watch_id w db)
  step (watch_lost id) db = after db (reregister_watch id db)
  step (job_polled d outcome) db = after db (apply_settlement d outcome db)
  step (job_lost id v) db = after db (resubmit id v db)
  step (touched id) db = after db (touch id db)
  step (pruned ttl) db = after db (prune ttl db)
  step (settlement_retried id) db = after db (retry_settlement id db)
  step (job_requeued id) db = (admin_requeue id db).1
  step (elapsed n) db = record db { now = db.now + n }

  unfoldable pub run : List Op → Db → Db
  unfolding step
  run [] db = db
  run (o ∷ os) db = run os (step o db)
