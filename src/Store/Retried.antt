-- ===== src/Store/Retried.antt =====
-- `retry_settlement` and `fail_open` on a deposit in an eligible state.
use gum_server.Prelude.{ℕ, ◌+◌, String, ◌≡◌, refl, true, none, some}
use gum_server.Prelude.Json.{string, field, object, end, empty_object}
use gum_server.Deposit.{Deposit}
use gum_server.Deposit.Status.{paid, failed, is_open, is_failed}
use gum_server.Deposit.Events.{EventType}
use gum_server.Deposit.Events as Events
use gum_server.Store.Db.{Db, ok, ◌>>=◌, row}
use gum_server.Store.Record.{enqueue_execute}
use gum_server.Store.Numbering.{Numbered}
use gum_server.Store.Transitions.{retry_settlement, fail_open}
use gum_server.Store.Effects.{update_deposit_lem, recorded_db, recorded_lem, with_execute}

-- The row that `retry_settlement` writes.
abbrev pub retried_row : ℕ → Deposit → Deposit
retried_row now d = record d {
  status = paid;
  engine_job_id = none;
  engine_submitted_at = none;
  failure_code = none;
  failure_message = none;
  failure_revert_data = none;
  failed_at = none;
  updated_at = now;
}

-- The row that `fail_open` writes.
abbrev pub refused_row : String → String → ℕ → Deposit → Deposit
refused_row code message now d = record d {
  status = failed;
  failed_at = some now;
  failure_code = some code;
  failure_message = some message;
  updated_at = now;
}

module _ (id : ℕ) (db : Db) (d : Deposit) where
  module _ (numbered : Numbered db.deposits db.timeline) (found : row id db.deposits ≡ some d) where
    pub retry_settlement_lem :
        is_failed d.status ≡ true
        → let new = retried_row db.now d in
          retry_settlement id db
          ≡ ok (some new) (
              with_execute new.id
                (new.event_seq + 1)
                (recorded_db id db d new Events.settlement_retried empty_object))
    unfolding retry_settlement enqueue_execute
    retry_settlement_lem h =
        let new = retried_row db.now d in
        rw
          (
            update_deposit_lem id (λ d. is_failed d.status)
                (λ now d. record d {
                  status = paid;
                  engine_job_id = none;
                  engine_submitted_at = none;
                  failure_code = none;
                  failure_message = none;
                  failure_revert_data = none;
                  failed_at = none;
                })
                db d found h,
            retry_settlement,
            ◌>>=◌,
          )
          (rw
            (
              recorded_lem id db d new Events.settlement_retried empty_object found refl numbered
                  refl,
              ◌>>=◌,
            )
            refl)

    pub fail_open_lem :
        (code message : String)
        → is_open d.status ≡ true
        → fail_open id code message db
          ≡ ok tt (
              recorded_db id db d
                (refused_row code message db.now d)
                Events.failed
                (object (field "code" (string code) (field "message" (string message) end))))
    unfolding fail_open
    fail_open_lem code message h =
        let new = refused_row code message db.now d in
        let v = object (field "code" (string code) (field "message" (string message) end)) in
        rw
          (
            update_deposit_lem id (λ d. is_open d.status)
                (λ now d. record d {
                  status = failed;
                  failed_at = some now;
                  failure_code = some code;
                  failure_message = some message;
                })
                db d found h,
            fail_open,
            ◌>>=◌,
          )
          (rw (recorded_lem id db d new Events.failed v found refl numbered refl, ◌>>=◌) refl)
