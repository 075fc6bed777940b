-- ===== src/Outbox/Submitted.antt =====
-- src/outbox/mod.rs, `run_submit_execute`: a settlement is submitted once, however often its job runs.
use gum_server.Prelude.{ℕ, ◌≡◌, Bool, true, ◌&&◌, not, some, is_some}
use gum_server.Prelude.Json.{Value, number, object, field, end}
use gum_server.Deposit.{Deposit}
use gum_server.Deposit.Status.{is_paid}
use gum_server.Deposit.Events as Events
use gum_server.Store.Db.{Db, row}
use gum_server.Store.Numbering.{Numbered}
use gum_server.Store.Transitions.{accepts_job}

-- The deposit's settlement is still to be submitted.
abbrev pub is_due : Deposit → Bool
is_due d = is_paid d.status && not (is_some d.engine_job_id)

-- The row that `mark_engine_submitted` writes.
abbrev pub submitted_row : ℕ → ℕ → Deposit → Deposit
submitted_row job now d = record d {
  engine_job_id = some job;
  engine_submitted_at = some now;
  updated_at = now;
}

abbrev submitted_json : ℕ → Value
submitted_json job = object (field "engine_job_id" (number job) end)

module _ (id job : ℕ) (db : Db) (d : Deposit) (found : row id db.deposits ≡ some d)
    (numbered : Numbered db.deposits db.timeline) (accepts : accepts_job job d ≡ true) where
  abbrev new : Deposit
  new = submitted_row job db.now d
