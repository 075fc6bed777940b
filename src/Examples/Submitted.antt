-- ===== src/Examples/Submitted.antt =====
-- A job that submits a settlement, run twice.
use gum_server.Prelude.{false, [], ◌∷◌}
use gum_server.Deposit.{Deposit}
use gum_server.Deposit.Status.{paid}
use gum_server.Store.Db.{Db, submit_execute, OutboxJob, no_payload}
use gum_server.Store.Record.{new_job}
use gum_server.Outbox.Jobs.{Upstreams, Submitted, replied}
use gum_server.Examples.{first_row, db_of, upstreams}

abbrev due_row : Deposit
due_row = record first_row { status = paid }

abbrev due_db : Db
due_db = db_of (due_row ∷ [])

abbrev taken : Submitted
taken = record { job_id = 900; replayed = false }

abbrev engine : Upstreams
engine = record upstreams { submit = λ t k. replied taken }

abbrev submit_job : OutboxJob
submit_job = new_job 51 1_000 submit_execute 1 no_payload
