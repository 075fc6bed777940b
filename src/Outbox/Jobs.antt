-- ===== src/Outbox/Jobs.antt =====
-- src/outbox/mod.rs, "Jobs": what a worker does with a claimed job. The upstream services are
-- parameters, and so is what other sessions commit while a request to one is under way.
use gum_server.Prelude.{
  ℕ, String, Bool, ◌&&◌, ◌||◌, not, Option, none, some, List, leb, ltb, str_eq, if◌then◌else◌,
  is_some, first, unwrap_or,
}
use gum_server.Prelude.Json.{Value, string, object, field, end}
use gum_server.Deposit.{Deposit}
use gum_server.Deposit.Status.{is_terminal, is_paid}
use gum_server.Chain.Payment.{PaymentTerms, terms}
use gum_server.Store.Db.{
  Db, Result, ok, err, row, User, JobKind, ExecuteKey, unsequenced, Notification, OutboxJob,
  register_watch, submit_execute, notify_app, unknown_kind,
}
use gum_server.Store.Transitions.{
  mark_watch_registered, apply_expired, mark_engine_submitted, apply_failed, fail_open,
}
use gum_server.Outbox.Schedule.{RetryConfig}
use gum_server.Outbox.Queue.{delete_job, mark_dead, retry_later}

pub data Attempt : Type 0 where
  done : Attempt
  retry dead : String → Attempt

-- An upstream's answer: a value, a 4xx refusal (`Rejected`), or any other error.
pub data Reply (A : Type 0) : Type 0 where
  replied : A → Reply A
  rejected failing : String → Reply A

pub record CreateWatch : Type 0 where
  pub payment_address : ℕ
  pub chain : ℕ
  pub token : ℕ
  pub balance_threshold : ℕ
  pub expires_at : ℕ
  pub payments_since : ℕ

pub record SubmitTransaction : Type 0 where
  pub chain_id : ℕ
  pub to : ℕ
  pub calldata : List ℕ

pub record Submitted : Type 0 where
  pub job_id : ℕ
  pub replayed : Bool

-- gum-indexer, gum-engine and the apps' webhooks, as this process reaches them. `deliver` gives the
-- status of the response to a signed notification, or `none` where there was no response.
pub record Upstreams : Type 0 where
  pub indexer_configured : Bool
  pub create_watch : CreateWatch → Reply ℕ
  pub engine_configured : Bool
  pub submit : SubmitTransaction → ExecuteKey → Reply Submitted
  pub deliver : String → String → Notification → Option ℕ
  pub factory : ℕ
  pub execute_calldata : PaymentTerms → List ℕ

abbrev pub reason_json : String → Value
reason_json why = object (field "reason" (string why) end)

-- A transaction of the job: `next` if it commits, another try if it does not.
abbrev pub commit : {A : Type 0} → Db → Result A → Attempt → String → Attempt × Db
commit db (ok a db') next error = (next, db')
commit db (err e) next error = (retry error, db)

abbrev pub watch_request : Deposit → CreateWatch
watch_request d = record {
  payment_address = d.payment_address;
  chain = d.chain_id;
  token = d.token_address;
  balance_threshold = d.amount;
  expires_at = d.expires_at;
  payments_since = d.created_at;
}

module _ (up : Upstreams) (others : Db → Db) where
  abbrev pub watch_reply : Deposit → Reply ℕ → Db → Attempt × Db
  watch_reply d (replied watch) db =
      commit db (mark_watch_registered d.id watch db) done "record watch"
  watch_reply d (rejected message) db =
      commit db (fail_open d.id "watch_rejected" message db) (dead message) "record failure"
  watch_reply d (failing message) db = (retry message, db)

  unfoldable pub run_register_watch : OutboxJob → Db → Attempt × Db
  run_register_watch job db = elim (row job.deposit_id db.deposits) [
    | none ↦ (dead "deposit no longer exists", db)
    | some d ↦
        if is_some d.watch_id || is_terminal d.status
        then (done, db)
        else if leb d.expires_at db.now
        then commit db
            (apply_expired d.id (reason_json "expired before the watch was registered") db) done
            "record expiry"
        else if not up.indexer_configured
        then (retry "indexer is not configured", db)
        else watch_reply d (up.create_watch (watch_request d)) (others db)
  ]

  abbrev pub execute_request : Deposit → SubmitTransaction
  execute_request d = record {
    chain_id = d.chain_id;
    to = up.factory;
    calldata = up.execute_calldata (terms d);
  }

  abbrev pub submit_reply : Deposit → Reply Submitted → Db → Attempt × Db
  submit_reply d (replied s) db =
      commit db (mark_engine_submitted d.id s.job_id s.replayed db) done "record job"
  submit_reply d (rejected message) db =
      commit db
        (apply_failed d.id "engine_rejected" message none none
          (object (field "error" (string message) end)) db)
        (dead message) "record failure"
  submit_reply d (failing message) db = (retry message, db)

  unfoldable pub run_submit_execute : OutboxJob → Db → Attempt × Db
  unfolding terms
  run_submit_execute job db = elim (row job.deposit_id db.deposits) [
    | none ↦ (dead "deposit no longer exists", db)
    | some d ↦
        if not (is_paid d.status)
        then (done, db)
        else if is_some d.engine_job_id
        then (done, db)
        else if not up.engine_configured
        then (retry "engine is not configured", db)
        else submit_reply d
            (up.submit (execute_request d)
              (unwrap_or job.payload.idempotency_key (unsequenced d.id)))
            (others db)
  ]

  abbrev delivered : Option ℕ → Attempt
  delivered none = retry "app webhook unreachable"
  delivered (some status) =
      if leb 200 status && ltb status 300 then done else retry "app webhook responded"

  -- The webhook secret of the deposit's owner.
  abbrev pub owner_secret : ℕ → Db → Option String
  owner_secret id db = elim (row id db.deposits) [
    | none ↦ none
    | some d ↦ elim (first (λ (u : User). str_eq u.id d.user_id) db.users) [
      | none ↦ none
      | some u ↦ some u.webhook_secret
    ]
  ]

  abbrev deliver_body : OutboxJob → String → Option Notification → Db → Attempt
  deliver_body job url none db = dead "notify_app job without body"
  deliver_body job url (some body) db = elim (owner_secret job.deposit_id db) [
    | none ↦ dead "deposit owner not found"
    | some secret ↦ delivered (up.deliver url secret body)
  ]

  unfoldable pub run_notify_app : OutboxJob → Db → Attempt × Db
  run_notify_app job db = elim job.payload.url [
    | none ↦ (dead "notify_app job without url", db)
    | some url ↦ (deliver_body job url job.payload.body db, others db)
  ]

  unfoldable pub run_kind : JobKind → OutboxJob → Db → Attempt × Db
  unfolding run_register_watch run_submit_execute run_notify_app
  run_kind register_watch job db = run_register_watch job db
  run_kind submit_execute job db = run_submit_execute job db
  run_kind notify_app job db = run_notify_app job db
  run_kind (unknown_kind s) job db = (dead "unknown job kind", db)

  unfoldable pub run_job : OutboxJob → Db → Attempt × Db
  unfolding run_kind
  run_job job db = run_kind job.kind job db

  -- What becomes of the job's row.
  unfoldable pub finalise : RetryConfig → ℕ → OutboxJob → Attempt → Db → Db
  unfolding delete_job mark_dead retry_later
  finalise c jitter job done db = delete_job job.id db
  finalise c jitter job (retry error) db = retry_later c jitter job error db
  finalise c jitter job (dead error) db = mark_dead job.id error db

  unfoldable pub execute_job : RetryConfig → ℕ → OutboxJob → Db → Db
  unfolding run_job finalise
  execute_job c jitter job db =
      let (attempt, db') = run_job job db in finalise c jitter job attempt db'
