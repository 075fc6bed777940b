-- ===== src/System/Safety.antt =====
-- What every sequence of transactions keeps of the deposits and their timelines.
use gum_server.Prelude.{ℕ, String, Bool, true, false, Option, none, some, List, [], ◌∷◌, arith}
use gum_server.Deposit.{Deposit, DepositEvent}
use gum_server.Store.Db.{Db, Result, ok, err, OutboxJob, now_v7, clock}
use gum_server.Outbox.Schedule.{RetryConfig}
use gum_server.Store.Create.{
  NewDeposit, Idempotency, insert_new, insert_deposit, claim_optional, finish_create, new_row,
  prune,
}
use gum_server.Store.Record.{claim_inbound}
use gum_server.Store.Keeps.{After, Keeps, Keeps-pure, Keeps-bind, Keeps-if, Keeps-after, IsClosed}
use gum_server.Store.Closed as Closed
use gum_server.Webhooks.Outcome.{ChainCodec}
use gum_server.Webhooks.Handlers as Handlers
use gum_server.Outbox.Queue.{claim, delete_job, mark_dead, retry_later, admin_requeue}
use gum_server.Reconciler.{WatchDetail, apply_watch}
use gum_server.System.{
  Op, create, indexer_event, engine_event, watch_registered, watch_refused, expired,
  engine_submitted, submission_refused, jobs_claimed, job_done, job_dead, job_retried, watch_polled,
  watch_lost, job_polled, job_lost, touched, pruned, settlement_retried, job_requeued, elapsed,
  after_insert, step, run,
}

-- A predicate on the deposits and their timelines that no statement of the service breaks.
pub record IsSafe (P : List Deposit → List DepositEvent → Type 0) : Type 0 where
  pub closed : IsClosed (λ db. P db.deposits db.timeline)
  pub inserted :
      (id : ℕ) (user : String) (new : NewDeposit) (now : ℕ)
      → Keeps (λ db. P db.deposits db.timeline) (insert_deposit (new_row id user new now))

module _ {P : List Deposit → List DepositEvent → Type 0} (s : IsSafe P) where
  abbrev Holds : Db → Type 0
  Holds db = P db.deposits db.timeline

  claims : Handlers.IgnoresClaims Holds
  unfolding claim_inbound
  claims source event_id = record { apply = λ db h. ground arith }

  now_v7-Keeps : Keeps Holds now_v7
  unfolding now_v7
  now_v7-Keeps = record { apply = λ db h. h }

  clock-Keeps : Keeps Holds clock
  unfolding clock
  clock-Keeps = record { apply = λ db h. h }

  pub claim_optional-Keeps :
      (user : String) (idem : Option Idempotency) (id : ℕ)
      → Keeps Holds (claim_optional user idem id)
  unfolding claim_optional
  claim_optional-Keeps user none id = Keeps-pure true
  claim_optional-Keeps user (some idem) id = record { apply = λ db h. ground arith }

  pub finish_create-Keeps : (b : Bool) (d : Deposit) → Keeps Holds (finish_create b d)
  finish_create-Keeps false d = Keeps-pure none
  finish_create-Keeps true d =
      Keeps-bind (s.closed.recorded d _ _)
        λ e. Keeps-bind (s.closed.enqueued _ d.id _) λ _. Keeps-pure (some d)

  create-Keeps :
      (user : String) (new : NewDeposit) (idem : Option Idempotency)
      → Keeps Holds (insert_new user new idem)
  unfolding insert_new
  create-Keeps user new idem = Keeps-bind now_v7-Keeps λ id. Keeps-bind clock-Keeps λ now.
      Keeps-bind (s.inserted id user new now)
        λ d. Keeps-bind (claim_optional-Keeps user idem id) λ claimed. finish_create-Keeps claimed d

  after_insert-Holds :
      (db : Db) (r : Result (Option Deposit)) → Holds db → After Holds r → Holds (after_insert db r)
  after_insert-Holds db (ok (some d) db') h k = k
  after_insert-Holds db (ok none db') h k = h
  after_insert-Holds db (err e) h k = h

  apply_watch-Keeps :
      (now : ℕ) (d : Deposit) (id : ℕ) (w : WatchDetail) → Keeps Holds (apply_watch now d id w)
  unfolding apply_watch
  apply_watch-Keeps now d id w =
      Keeps-if _
        (Keeps-bind (Closed.apply_threshold_reached-Keeps s.closed d.id _ _) λ o. Keeps-pure _)
        (Keeps-if _ (Keeps-bind (Closed.apply_expired-Keeps s.closed d.id _) λ o. Keeps-pure _) (
          Keeps-if _
            (Keeps-bind (Closed.apply_payment_confirmed-Keeps s.closed d.id _ _) λ o. Keeps-pure _)
            (Keeps-pure false)))

  retry_later-Holds :
      (c : RetryConfig) (jitter : ℕ) (job : OutboxJob) (error : String) (db : Db)
      → Holds db
      → Holds (retry_later c jitter job error db)
  unfolding retry_later
  retry_later-Holds c jitter job error db h = ground arith

  module _ (chain : ChainCodec) (uuid_time : ℕ → Option ℕ) where
    pub step-IsSafe : (o : Op) (db : Db) → Holds db → Holds (step chain uuid_time o db)
    unfolding step claim delete_job mark_dead admin_requeue prune
    step-IsSafe (create user new idem) db h =
        after_insert-Holds db _ h ((create-Keeps user new idem).apply db h)
    step-IsSafe (indexer_event e) db h =
        Keeps-after (Handlers.apply_indexer_event-Keeps s.closed claims e) db h
    step-IsSafe (engine_event e) db h =
        Keeps-after (Handlers.apply_engine_event-Keeps s.closed chain uuid_time claims e) db h
    step-IsSafe (watch_registered id watch) db h =
        Keeps-after (Closed.mark_watch_registered-Keeps s.closed id watch) db h
    step-IsSafe (watch_refused id code message) db h =
        Keeps-after (Closed.fail_open-Keeps s.closed id code message) db h
    step-IsSafe (expired id v) db h = Keeps-after (Closed.apply_expired-Keeps s.closed id v) db h
    step-IsSafe (engine_submitted id job replayed) db h =
        Keeps-after (Closed.mark_engine_submitted-Keeps s.closed id job replayed) db h
    step-IsSafe (submission_refused id message v) db h =
        Keeps-after (Closed.apply_failed-Keeps s.closed id "engine_rejected" message none none v) db
          h
    step-IsSafe (jobs_claimed held batch ttl) db h = h
    step-IsSafe (job_done id) db h = h
    step-IsSafe (job_dead id error) db h = h
    step-IsSafe (job_retried c jitter job error) db h = retry_later-Holds c jitter job error db h
    step-IsSafe (watch_polled now d watch_id w) db h =
        Keeps-after (apply_watch-Keeps now d watch_id w) db h
    step-IsSafe (watch_lost id) db h = Keeps-after (Closed.reregister_watch-Keeps s.closed id) db h
    step-IsSafe (job_polled d outcome) db h =
        Keeps-after (Handlers.apply_settlement-Keeps s.closed d outcome) db h
    step-IsSafe (job_lost id v) db h = Keeps-after (Closed.resubmit-Keeps s.closed id v) db h
    step-IsSafe (touched id) db h = Keeps-after (Closed.touch-Keeps s.closed id) db h
    step-IsSafe (pruned ttl) db h = h
    step-IsSafe (settlement_retried id) db h =
        Keeps-after (Closed.retry_settlement-Keeps s.closed id) db h
    step-IsSafe (job_requeued id) db h = h
    step-IsSafe (elapsed n) db h = h

    pub run-IsSafe : (os : List Op) (db : Db) → Holds db → Holds (run chain uuid_time os db)
    unfolding run
    run-IsSafe [] db h = h
    run-IsSafe (o ∷ os) db h = run-IsSafe os (step chain uuid_time o db) (step-IsSafe o db h)
