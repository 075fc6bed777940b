-- ===== src/Store/Db.antt =====
-- The database of migrations/0001_init.sql as the store's statements see it, and the statements as
-- actions that return a value and a new database or an error. A transaction that ends in an error
-- leaves the database as it was.
use gum_server.Prelude.{
  ℕ, suc, ◌+◌, String, Bool, true, false, ◌&&◌, Option, none, some, List, [], ◌∷◌, ◌==◌, str_eq,
  if◌then◌else◌, first, any,
}
use gum_server.Prelude.Json.{Value}
use gum_server.Deposit.{Deposit, DepositEvent}
use gum_server.Deposit.Events.{EventType}

pub data JobKind : Type 0 where
  register_watch submit_execute notify_app : JobKind
  unknown_kind : String → JobKind

-- The engine's idempotency key, `deposit:{id}:execute:{sequence}` or `deposit:{id}:execute`.
pub data ExecuteKey : Type 0 where
  sequenced : ℕ → ℕ → ExecuteKey
  unsequenced : ℕ → ExecuteKey

-- The body of an app webhook, with the deposit's row as it was when the event was recorded.
pub record Notification : Type 0 where
  pub id : ℕ
  pub event_type : EventType
  pub created_at : ℕ
  pub sequence : ℕ
  pub deposit : Deposit
  pub event_data : Value

-- The members of a job's JSON payload that the workers read.
pub record Payload : Type 0 where
  pub idempotency_key : Option ExecuteKey
  pub url : Option String
  pub body : Option Notification

abbrev pub no_payload : Payload
no_payload = record { idempotency_key = none; url = none; body = none }

pub record OutboxJob : Type 0 where
  pub id : ℕ
  pub kind : JobKind
  pub deposit_id : ℕ
  pub payload : Payload
  pub attempts : ℕ
  pub next_attempt_at : ℕ
  pub locked_until : Option ℕ
  pub last_error : Option String
  pub dead_at : Option ℕ
  pub created_at : ℕ

pub record User : Type 0 where
  pub id : String
  pub webhook_secret : String
  pub default_webhook_url : Option String

pub record IdempotencyRow : Type 0 where
  pub user_id : String
  pub key : String
  pub request_hash : ℕ
  pub deposit_id : ℕ
  pub created_at : ℕ

pub record InboundRow : Type 0 where
  pub source : String
  pub event_id : String
  pub received_at : ℕ

-- `now` is the transaction's clock; `uuids n` is the n-th id that `Uuid::now_v7` gives, and
-- `drawn` counts those given; `notified` holds the deposits named by `pg_notify`. Each table has
-- its newest row first.
pub record Db : Type 0 where
  pub now : ℕ
  pub uuids : ℕ → ℕ
  pub drawn : ℕ
  pub users : List User
  pub deposits : List Deposit
  pub timeline : List DepositEvent
  pub outbox : List OutboxJob
  pub inbound : List InboundRow
  pub idempotency : List IdempotencyRow
  pub notified : List ℕ

-- Errors of the database, and `ApiError`s with status 503 by their code.
pub data DbError : Type 0 where
  row_not_found unique_violation : DbError
  protocol unavailable : String → DbError

pub data Result (A : Type 0) : Type 0 where
  ok : A → Db → Result A
  err : DbError → Result A

abbrev pub Tx : Type 0 → Type 0
Tx A = Db → Result A

abbrev pub pure : {A : Type 0} → A → Tx A
pure a db = ok a db

abbrev pub throw : {A : Type 0} → DbError → Tx A
throw e db = err e

infixl 5 ◌>>=◌ ◌>>◌
abbrev pub ◌>>=◌ : {A B : Type 0} → Tx A → (A → Tx B) → Tx B
◌>>=◌ m f db = elim (m db) [ ok a db' ↦ f a db' | err e ↦ err e ]

abbrev pub ◌>>◌ : {A B : Type 0} → Tx A → Tx B → Tx B
m >> k = m >>= λ _. k

-- `if let Some(d) = &o { … }`
abbrev pub on_some : {A : Type 0} → Option A → (A → Tx (Unit {0})) → Tx (Unit {0})
on_some none f = pure tt
on_some (some a) f = f a

abbrev pub on_true : Bool → Tx (Unit {0}) → Tx (Unit {0})
on_true true m = m
on_true false m = pure tt

-- The database after a transaction: committed, or rolled back.
abbrev pub after : {A : Type 0} → Db → Result A → Db
after db (ok a db') = db'
after db (err e) = db

-- Rows of `deposits` by primary key.
unfoldable pub row : ℕ → List Deposit → Option Deposit
row id [] = none
row id (d ∷ ds) = if d.id == id then some d else row id ds

unfoldable pub replace : ℕ → Deposit → List Deposit → List Deposit
replace id new [] = []
replace id new (d ∷ ds) = if d.id == id then new ∷ ds else d ∷ replace id new ds

unfoldable pub now_v7 : Tx ℕ
now_v7 db = ok (db.uuids db.drawn) (record db { drawn = suc db.drawn })

unfoldable pub clock : Tx ℕ
clock db = ok db.now db

-- UPDATE deposits SET … WHERE id = $1 AND guard RETURNING …: `id` is the primary key.
unfoldable pub update_row : ℕ → (Deposit → Bool) → (ℕ → Deposit → Deposit) → Tx (Option Deposit)
update_row id guard set db = elim (row id db.deposits) [
  | none ↦ ok none db
  | some d ↦
      let new = set db.now d in
      if guard d
      then ok (some new) (record db { deposits = replace id new db.deposits })
      else ok none db
]

-- `update_deposit(set, where)`: the statement of the transitions also sets `updated_at = now()`.
abbrev pub stamped : (ℕ → Deposit → Deposit) → ℕ → Deposit → Deposit
stamped set now d = record (set now d) { updated_at = now }

unfoldable pub update_deposit : ℕ → (Deposit → Bool) → (ℕ → Deposit → Deposit) → Tx (Option Deposit)
unfolding update_row
update_deposit id guard set = update_row id guard (stamped set)

-- UPDATE deposits SET event_seq = event_seq + 1 WHERE id = $1 RETURNING event_seq
unfoldable pub bump_event_seq : ℕ → Tx ℕ
bump_event_seq id db = elim (row id db.deposits) [
  | none ↦ err row_not_found
  | some d ↦
      ok (d.event_seq + 1)
        (record db { deposits = replace id (record d { event_seq = d.event_seq + 1 }) db.deposits })
]

abbrev pub same_sequence : ℕ → ℕ → DepositEvent → Bool
same_sequence id sequence x = x.deposit_id == id && x.sequence == sequence

-- INSERT INTO deposit_events …, under UNIQUE (deposit_id, sequence)
unfoldable pub insert_event : DepositEvent → Tx DepositEvent
insert_event e db =
    if any (same_sequence e.deposit_id e.sequence) db.timeline
    then err unique_violation
    else ok e (record db { timeline = e ∷ db.timeline })

unfoldable pub pg_notify : ℕ → Tx (Unit {0})
pg_notify id db = ok tt (record db { notified = id ∷ db.notified })

-- SELECT default_webhook_url FROM users WHERE id = $1
unfoldable pub default_webhook_url : String → Tx (Option String)
default_webhook_url user_id db = elim (first (λ (u : User). str_eq u.id user_id) db.users) [
  | none ↦ ok none db
  | some u ↦ ok u.default_webhook_url db
]

unfoldable pub insert_job : OutboxJob → Tx (Unit {0})
insert_job j db = ok tt (record db { outbox = j ∷ db.outbox })
