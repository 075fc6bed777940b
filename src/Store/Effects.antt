-- ===== src/Store/Effects.antt =====
-- The transitions on a deposit in an eligible state: they do not fail, and what they leave behind.
use mathlib.Core.Path.{subst}
use gum_server.Prelude.{
  ℕ, suc, ◌+◌, ◌≡◌, refl, ap, ◌∙◌, Bool, true, some, List, [], ◌∷◌, append, any, ==_refl, coalesce,
  Option-cases, inl, inr,
}
use gum_server.Prelude.Json.{Value}
use gum_server.Deposit.{Deposit, DepositEvent}
use gum_server.Deposit.Status.{paid, is_open}
use gum_server.Deposit.Events.{EventType}
use gum_server.Deposit.Events as Events
use gum_server.Store.Db.{
  Db, ok, ◌>>=◌, row, replace, submit_execute, OutboxJob, update_row, update_deposit, stamped,
  same_sequence, notify_app,
}
use gum_server.Store.Record.{
  record_event, enqueue_execute, execute_payload, new_job, notify_payload,
}
use gum_server.Store.Db.{sequenced}
use gum_server.Store.Rows.{row_id, row-replace}
use gum_server.Store.Recorded.{
  bumped, next_event, queued, queued-frame, appended, record_event_lem, app_url,
}
use gum_server.Store.Numbering.{Numbered, next_free}
use gum_server.Store.Transitions.{apply_threshold_reached}

pub update_deposit_lem :
    (id : ℕ) (guard : Deposit → Bool) (set : ℕ → Deposit → Deposit) (db : Db) (d : Deposit)
    → row id db.deposits ≡ some d
    → guard d ≡ true
    → update_deposit id guard set db
      ≡ ok
          (some (stamped set db.now d))
          (record db { deposits = replace id (stamped set db.now d) db.deposits })
unfolding update_deposit update_row
update_deposit_lem id guard set db d found g = rw (found, update_deposit, update_row) (rw g refl)

-- The row `d` of the database replaced by `new`, which has its key and its sequence.
abbrev pub changed : ℕ → Deposit → Db → Db
changed id new db = record db { deposits = replace id new db.deposits }

module _ (id : ℕ) (db : Db) (d new : Deposit) (t : EventType) (v : Value) where
  -- The event of the change, and the database after it.
  abbrev pub event_of : DepositEvent
  event_of = next_event new t v new (changed id new db)

  abbrev pub recorded_db : Db
  recorded_db = queued new event_of (appended new event_of new (changed id new db))

  module _ (found : row id db.deposits ≡ some d) (same : new.id ≡ d.id) where
    pub changed-row : row id (changed id new db).deposits ≡ some new
    changed-row =
        row-replace id id new d db.deposits (same ∙ row_id id db.deposits d found) found
        ∙ rw (==_refl id) refl

    pub recorded-row : row id recorded_db.deposits ≡ some (bumped new)
    recorded-row =
        let here : new.id ≡ id = same ∙ row_id id db.deposits d found in
        let at : row new.id (changed id new db).deposits ≡ some new =
          ap (λ i. row i (changed id new db).deposits) here ∙ changed-row in
        let frame = (queued-frame new event_of (appended new event_of new (changed id new db))).0 in
        ap (row id) frame
        ∙ row-replace new.id id (bumped new) new (changed id new db).deposits refl at
        ∙ rw (here, ==_refl id) refl

    -- On a numbered timeline the event is recorded.
    pub recorded_lem :
        Numbered db.deposits db.timeline
        → new.event_seq ≡ d.event_seq
        → record_event new t v (changed id new db) ≡ ok event_of recorded_db
    recorded_lem h seq =
        let here : new.id ≡ id = same ∙ row_id id db.deposits d found in
        record_event_lem new t v (changed id new db) new
          (ap (λ i. row i (changed id new db).deposits) here ∙ changed-row)
          (ap (λ i. any (same_sequence i (new.event_seq + 1)) db.timeline) here
            ∙ ap (λ s. any (same_sequence id (s + 1)) db.timeline) seq
            ∙ next_free db.deposits db.timeline id d h found)

-- The `execute` of a deposit that is paid, queued under the sequence of an event.
abbrev pub queued_job : ℕ → ℕ → Db → OutboxJob
queued_job id sequence db =
    new_job (db.uuids db.drawn) db.now submit_execute id (execute_payload (sequenced id sequence))

abbrev pub with_execute : ℕ → ℕ → Db → Db
with_execute id sequence db = record db {
  drawn = suc db.drawn;
  outbox = queued_job id sequence db ∷ db.outbox;
}

-- No job, or one notification of the deposit.
abbrev pub IsNotice : ℕ → List OutboxJob → Type 0
IsNotice id [] = Unit
IsNotice id (n ∷ []) = (n.kind ≡ notify_app) × (n.deposit_id ≡ id)
IsNotice id (n ∷ m ∷ ns) = ⊥

queued-IsNotice :
    (d : Deposit) (e : DepositEvent) (db : Db)
    → (told : List OutboxJob) × ((queued d e db).outbox ≡ append told db.outbox)
      × IsNotice d.id told
queued-IsNotice d e db = elim (Option-cases (app_url d e.event_type db.users)) [
  | inl none_is ↦ ([], rw (none_is, queued) refl, tt)
  | inr (url, some_is) ↦ (
    new_job (db.uuids db.drawn) db.now notify_app d.id (notify_payload url e d) ∷ [],
    rw (some_is, queued) refl,
    (refl, refl),
  )
]

-- The row that `apply_threshold_reached` writes.
abbrev pub paid_row : ℕ → ℕ → Deposit → Deposit
paid_row confirmed now d = record d {
  status = paid;
  detected_at = coalesce d.detected_at (some now);
  confirmed_amount = confirmed;
  updated_at = now;
}

module _ (id : ℕ) (db : Db) (d : Deposit) (v : Value) where
  module _ (numbered : Numbered db.deposits db.timeline) (found : row id db.deposits ≡ some d) where
    threshold_reached_lem :
        (confirmed : ℕ)
        → is_open d.status ≡ true
        → let new = paid_row confirmed db.now d in
          apply_threshold_reached id confirmed v db
          ≡ ok
              (some new)
              (with_execute new.id (new.event_seq + 1) (recorded_db id db d new Events.ready v))
    unfolding apply_threshold_reached enqueue_execute
    threshold_reached_lem confirmed h =
        let new = paid_row confirmed db.now d in
        rw
          (
            update_deposit_lem id (λ d. is_open d.status)
                (λ now d. record d {
                  status = paid;
                  detected_at = coalesce d.detected_at (some now);
                  confirmed_amount = confirmed;
                })
                db d found h,
            apply_threshold_reached,
            ◌>>=◌,
          )
          (rw (recorded_lem id db d new Events.ready v found refl numbered refl, ◌>>=◌) refl)

    -- When the confirmed total of an open deposit reaches its amount, the deposit is paid with that
    -- total under the next sequence, and the outbox grows by its `execute`, keyed by that sequence, and at
    -- most one notification of the app for the deposit; on a numbered timeline this does not fail.
    pub threshold_reached :
        (confirmed : ℕ)
        → is_open d.status ≡ true
        → let new = paid_row confirmed db.now d in
          (db' : Db) × (apply_threshold_reached id confirmed v db ≡ ok (some new) db')
          × (row id db'.deposits ≡ some (bumped new))
          × (job : OutboxJob) × (told : List OutboxJob) × (db'.outbox ≡ job ∷ append told db.outbox)
          × (job.kind ≡ submit_execute)
          × (job.deposit_id ≡ id)
          × (job.payload ≡ execute_payload (sequenced id (d.event_seq + 1)))
          × IsNotice id told
    threshold_reached confirmed h =
        let new = paid_row confirmed db.now d in
        let e = event_of id db d new Events.ready v in
        let db₁ = recorded_db id db d new Events.ready v in
        let same = row_id id db.deposits d found in
        let (told, grown, notice) =
          queued-IsNotice new e (appended new e new (changed id new db)) in
        (
          with_execute new.id (new.event_seq + 1) db₁,
          threshold_reached_lem confirmed h,
          recorded-row id db d new Events.ready v found refl,
          queued_job new.id (new.event_seq + 1) db₁,
          told,
          ap (λ o. queued_job new.id (new.event_seq + 1) db₁ ∷ o) grown,
          refl,
          same,
          ap (λ i. execute_payload (sequenced i (d.event_seq + 1))) same,
          subst (λ i. IsNotice i told) same notice,
        )
