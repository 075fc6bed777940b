-- ===== src/Store/Notified.antt =====
-- `record_event` on a numbered timeline: the event that it appends and the app webhook that it queues.
use gum_server.Prelude.{suc, ◌+◌, ◌≡◌, refl, none, some, List, [], ◌∷◌, arith, append}
use gum_server.Prelude.Json.{Value}
use gum_server.Deposit.{Deposit, DepositEvent}
use gum_server.Deposit.Events.{EventType}
use gum_server.Store.Db.{Db, ok, row, notify_app, OutboxJob}
use gum_server.Store.Record.{record_event, new_job, notify_payload}
use gum_server.Store.Recorded.{app_url, next_event, appended, queued, record_event_lem}
use gum_server.Store.Numbering.{Numbered, next_free}

-- One `notify_app` job, with the event and the deposit's row, if the app is to hear of the event.
abbrev pub notification_jobs : Deposit → DepositEvent → Db → List OutboxJob
notification_jobs d e db = elim (app_url d e.event_type db.users) [
  | none ↦ []
  | some url ↦
      new_job (db.uuids (suc db.drawn)) db.now notify_app d.id (notify_payload url e d) ∷ []
]

-- On a numbered timeline an event of a stored deposit is recorded, under the sequence after the last
-- one, at the head of the timeline; and one job notifies the app if the event's type is app-facing and
-- the deposit or its owner has a webhook URL, the deposit's own first; otherwise none does.
pub record_event-Numbered :
    (d : Deposit) (t : EventType) (v : Value) (db : Db) (old : Deposit)
    → Numbered db.deposits db.timeline
    → row d.id db.deposits ≡ some old
    → (e : DepositEvent) × (db' : Db) × (record_event d t v db ≡ ok e db')
      × (e.sequence ≡ old.event_seq + 1)
      × (e.event_type ≡ t)
      × (db'.timeline ≡ e ∷ db.timeline)
      × (db'.outbox ≡ append (notification_jobs d e db) db.outbox)
record_event-Numbered d t v db old h found =
    let e = next_event d t v old db in
    (
      e,
      queued d e (appended d e old db),
      record_event_lem d t v db old found (next_free db.deposits db.timeline d.id old h found),
      refl,
      refl,
      ground arith,
      ground arith,
    )
