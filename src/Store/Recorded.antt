-- ===== src/Store/Recorded.antt =====
-- `record_event` as one change of the database: what it refuses, what it writes, and which app it
-- notifies.
use gum_server.Prelude.{
  ℕ, suc, ◌+◌, String, ◌≡◌, true, false, Option, none, some, List, ◌∷◌, arith, str_eq,
  if◌then◌else◌, is_some, first, any,
}
use gum_server.Prelude.Json.{Value}
use gum_server.Deposit.{Deposit, DepositEvent}
use gum_server.Deposit.Events.{EventType, is_app_facing}
use gum_server.Store.Db.{
  Db, ok, err, ◌>>=◌, row_not_found, unique_violation, row, replace, User, notify_app,
  same_sequence, bump_event_seq, insert_event,
}
use gum_server.Store.Record.{notify_app_of, record_event, new_job, notify_payload}

-- The owner's default webhook.
abbrev pub owner_url : String → List User → Option String
owner_url user_id users = elim (first (λ (u : User). str_eq u.id user_id) users) [
  | none ↦ none
  | some u ↦ u.default_webhook_url
]

-- Where the app hears of an event, if it does.
abbrev pub app_url : Deposit → EventType → List User → Option String
app_url d t users =
    if is_app_facing t
    then if is_some d.webhook_url then d.webhook_url else owner_url d.user_id users
    else none

abbrev pub queued : Deposit → DepositEvent → Db → Db
queued d e db = elim (app_url d e.event_type db.users) [
  | none ↦ db
  | some url ↦ record db {
    drawn = suc db.drawn;
    outbox =
        new_job (db.uuids db.drawn) db.now notify_app d.id (notify_payload url e d) ∷ db.outbox;
  }
]

-- A notification is a job and nothing else.
pub queued-frame :
    (d : Deposit) (e : DepositEvent) (db : Db)
    → ((queued d e db).deposits ≡ db.deposits) × ((queued d e db).timeline ≡ db.timeline)
queued-frame d e db = ground arith

notify_app_of_lem :
    (d : Deposit) (e : DepositEvent) (db : Db) → notify_app_of d e db ≡ ok tt (queued d e db)
unfolding notify_app_of
notify_app_of_lem d e db = ground arith

abbrev pub bumped : Deposit → Deposit
bumped d = record d { event_seq = d.event_seq + 1 }

-- The event that is appended to the timeline of the row `old`.
abbrev pub next_event : Deposit → EventType → Value → Deposit → Db → DepositEvent
next_event d t v old db = record {
  id = db.uuids db.drawn;
  deposit_id = d.id;
  sequence = old.event_seq + 1;
  event_type = t;
  event_data = v;
  created_at = db.now;
}

abbrev pub appended : Deposit → DepositEvent → Deposit → Db → Db
appended d e old db = record db {
  drawn = suc db.drawn;
  deposits = replace d.id (bumped old) db.deposits;
  timeline = e ∷ db.timeline;
  notified = d.id ∷ db.notified;
}

bump_event_seq_lem :
    (id : ℕ) (db : Db) (old : Deposit)
    → row id db.deposits ≡ some old
    → bump_event_seq id db
      ≡ ok (old.event_seq + 1) (record db { deposits = replace id (bumped old) db.deposits })
unfolding bump_event_seq
bump_event_seq_lem id db old h = rw (h, bump_event_seq)

bump_event_seq_missing :
    (id : ℕ) (db : Db) → row id db.deposits ≡ none → bump_event_seq id db ≡ err row_not_found
unfolding bump_event_seq
bump_event_seq_missing id db h = rw (h, bump_event_seq)

insert_event_lem :
    (e : DepositEvent) (db : Db)
    → any (same_sequence e.deposit_id e.sequence) db.timeline ≡ false
    → insert_event e db ≡ ok e (record db { timeline = e ∷ db.timeline })
unfolding insert_event
insert_event_lem e db h = rw h

insert_event_taken :
    (e : DepositEvent) (db : Db)
    → any (same_sequence e.deposit_id e.sequence) db.timeline ≡ true
    → insert_event e db ≡ err unique_violation
unfolding insert_event
insert_event_taken e db h = rw h

-- The database when the event is inserted: the sequence is taken and an id is drawn.
abbrev numbered : Deposit → Deposit → Db → Db
numbered d old db = record db {
  drawn = suc db.drawn;
  deposits = replace d.id (bumped old) db.deposits;
}

module _ (d : Deposit) (t : EventType) (v : Value) (db : Db) where
  pub record_event_missing : row d.id db.deposits ≡ none → record_event d t v db ≡ err row_not_found
  unfolding record_event
  record_event_missing h = rw (bump_event_seq_missing d.id db h, record_event, ◌>>=◌)

  module _ (old : Deposit) (found : row d.id db.deposits ≡ some old) where
    pub record_event_taken :
        any (same_sequence d.id (old.event_seq + 1)) db.timeline ≡ true
        → record_event d t v db ≡ err unique_violation
    unfolding record_event
    record_event_taken k =
        rw (bump_event_seq_lem d.id db old found, record_event, ◌>>=◌)
          (rw (insert_event_taken (next_event d t v old db) (numbered d old db) k, ◌>>=◌))

    pub record_event_lem :
        any (same_sequence d.id (old.event_seq + 1)) db.timeline ≡ false
        → let e = next_event d t v old db in
          record_event d t v db ≡ ok e (queued d e (appended d e old db))
    unfolding record_event
    record_event_lem k =
        rw (bump_event_seq_lem d.id db old found, record_event, ◌>>=◌)
          (rw (insert_event_lem (next_event d t v old db) (numbered d old db) k, ◌>>=◌)
            (rw (
              notify_app_of_lem d (next_event d t v old db)
                  (appended d (next_event d t v old db) old db),
              ◌>>=◌,
            )))
