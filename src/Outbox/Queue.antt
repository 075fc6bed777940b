-- ===== src/Outbox/Queue.antt =====
-- src/outbox/mod.rs: claiming a batch of jobs, and what becomes of a job's row after an attempt.
use gum_server.Prelude.{
  ℕ, ◌+◌, ◌*◌, ◌/◌, ◌-◌, String, Bool, true, ◌&&◌, not, Option, none, some, List, map, ◌==◌, ltb,
  leb, str_eq, if◌then◌else◌, is_some, any, select, take, sort_by,
}
use gum_server.Store.Db.{
  Db, JobKind, register_watch, submit_execute, notify_app, unknown_kind, OutboxJob,
}
use gum_server.Outbox.Schedule.{RetryConfig, retry_after, give_up, schedule}

abbrev pub kind_name : JobKind → String
kind_name register_watch = "register_watch"
kind_name submit_execute = "submit_execute"
kind_name notify_app = "notify_app"
kind_name (unknown_kind s) = s

abbrev pub is_live : OutboxJob → Bool
is_live o = not (is_some o.dead_at)

abbrev pub is_unlocked : ℕ → Option ℕ → Bool
is_unlocked now none = true
is_unlocked now (some until) = ltb until now

abbrev pub is_due : ℕ → OutboxJob → Bool
is_due now o = is_live o && (leb o.next_attempt_at now && is_unlocked now o.locked_until)

abbrev pub same_lane : OutboxJob → OutboxJob → Bool
same_lane p o = p.deposit_id == o.deposit_id && str_eq (kind_name p.kind) (kind_name o.kind)

-- EXISTS an earlier job of the same deposit and kind that is not dead.
abbrev pub blocks : OutboxJob → OutboxJob → Bool
blocks o p = same_lane p o && (ltb p.id o.id && is_live p)

-- The rows that `claim` may take; `held` are those that other sessions have locked.
unfoldable pub claimable : (ℕ → Bool) → ℕ → List OutboxJob → List OutboxJob
claimable held now rows =
    select (λ o. is_due now o && (not (any (blocks o) rows) && not (held o.id))) rows

abbrev pub has_id : ℕ → OutboxJob → Bool
has_id id o = o.id == id

-- The chosen rows as they are returned: locked, with one more attempt.
abbrev pub locked : ℕ → OutboxJob → OutboxJob
locked until o = record o { locked_until = some until; attempts = o.attempts + 1 }

unfoldable pub due_batch : (ℕ → Bool) → ℕ → ℕ → List OutboxJob → List OutboxJob
unfolding claimable
due_batch held batch now rows =
    take batch (sort_by (λ o. o.next_attempt_at) (claimable held now rows))

unfoldable pub claim : (ℕ → Bool) → ℕ → ℕ → Db → List OutboxJob × Db
unfolding due_batch
claim held batch lock_ttl_secs db =
    let until = db.now + lock_ttl_secs * 1000 in
    let due = due_batch held batch db.now db.outbox in
    (
      map (locked until) due,
      record db {
        outbox = map (λ o. if any (has_id o.id) due then locked until o else o) db.outbox;
      },
    )

-- UPDATE outbox SET … WHERE id = $1
abbrev pub update_job : ℕ → (OutboxJob → OutboxJob) → Db → Db
update_job id set db = record db {
  outbox = map (λ (o : OutboxJob). if o.id == id then set o else o) db.outbox;
}

unfoldable pub delete_job : ℕ → Db → Db
delete_job id db = record db { outbox = select (λ (o : OutboxJob). not (o.id == id)) db.outbox }

unfoldable pub mark_dead : ℕ → String → Db → Db
mark_dead id error db =
    update_job id
      (λ o. record o { dead_at = some db.now; locked_until = none; last_error = some error }) db

unfoldable pub reschedule : ℕ → ℕ → String → Db → Db
reschedule id delay error db =
    update_job id
      (λ o. record o {
        next_attempt_at = db.now + delay;
        locked_until = none;
        last_error = some error;
      })
      db

-- Schedules the job's next attempt, or marks it dead when its retry window is over.
unfoldable pub retry_later : RetryConfig → ℕ → OutboxJob → String → Db → Db
unfolding reschedule mark_dead
retry_later c jitter job error db =
    elim (schedule c job.kind job.attempts ((db.now - job.created_at) / 1000) jitter) [
      | give_up ↦ mark_dead job.id error db
      | retry_after delay ↦ reschedule job.id delay error db
    ]

-- src/app.rs, `admin_requeue`: whether there was such a job.
unfoldable pub admin_requeue : ℕ → Db → Bool × Db
admin_requeue id db = (
  any (has_id id) db.outbox,
  update_job id
      (λ o. record o {
        dead_at = none;
        next_attempt_at = db.now;
        locked_until = none;
        created_at = db.now;
      })
      db,
)
