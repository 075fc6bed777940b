-- ===== src/Store/Record.antt =====
-- src/deposit/store.rs, "Events and outbox": the timeline, the outbox and the inbound dedupe.
use gum_server.Prelude.{
  ℕ, String, Bool, true, false, ◌&&◌, Option, none, some, ◌∷◌, str_eq, if◌then◌else◌, is_some, any,
}
use gum_server.Prelude.Json.{Value}
use gum_server.Deposit.{Deposit, DepositEvent}
use gum_server.Deposit.Events.{EventType, is_app_facing}
use gum_server.Store.Db.{
  Tx, ok, pure, ◌>>=◌, ◌>>◌, on_some, on_true, JobKind, submit_execute, notify_app, ExecuteKey,
  sequenced, Payload, OutboxJob, Notification, InboundRow, now_v7, clock, bump_event_seq,
  insert_event, pg_notify, default_webhook_url, insert_job,
}

abbrev pub new_job : ℕ → ℕ → JobKind → ℕ → Payload → OutboxJob
new_job id now kind deposit_id payload = record {
  id = id;
  kind = kind;
  deposit_id = deposit_id;
  payload = payload;
  attempts = 0;
  next_attempt_at = now;
  locked_until = none;
  last_error = none;
  dead_at = none;
  created_at = now;
}

unfoldable pub enqueue : JobKind → ℕ → Payload → Tx (Unit {0})
unfolding now_v7 clock insert_job
enqueue kind deposit_id payload = do
  id ← now_v7
  now ← clock
  insert_job (new_job id now kind deposit_id payload)

-- The deposit's own webhook, else its owner's default.
unfoldable pub webhook_url_for : Deposit → Tx (Option String)
unfolding default_webhook_url
webhook_url_for d =
    if is_some d.webhook_url then pure d.webhook_url else default_webhook_url d.user_id

abbrev pub notification : DepositEvent → Deposit → Notification
notification e d = record {
  id = e.id;
  event_type = e.event_type;
  created_at = e.created_at;
  sequence = e.sequence;
  deposit = d;
  event_data = e.event_data;
}

abbrev pub notify_payload : String → DepositEvent → Deposit → Payload
notify_payload url e d = record {
  idempotency_key = none;
  url = some url;
  body = some (notification e d);
}

-- Queues the app webhook of an app-facing event, where the app has one.
unfoldable pub notify_app_of : Deposit → DepositEvent → Tx (Unit {0})
unfolding is_app_facing webhook_url_for enqueue
notify_app_of d e =
    on_true (is_app_facing e.event_type) (do
      url ← webhook_url_for d
      on_some url (λ u. enqueue notify_app d.id (notify_payload u e d)))

unfoldable pub record_event : Deposit → EventType → Value → Tx DepositEvent
unfolding now_v7 clock pg_notify
record_event d event_type event_data = do
  sequence ← bump_event_seq d.id
  id ← now_v7
  now ← clock
  event ← insert_event (record {
    id = id;
    deposit_id = d.id;
    sequence = sequence;
    event_type = event_type;
    event_data = event_data;
    created_at = now;
  })
  pg_notify d.id
  notify_app_of d event
  pure event

abbrev pub execute_payload : ExecuteKey → Payload
execute_payload k = record { idempotency_key = some k; url = none; body = none }

unfoldable pub enqueue_execute : ℕ → ℕ → Tx (Unit {0})
unfolding enqueue
enqueue_execute id sequence = enqueue submit_execute id (execute_payload (sequenced id sequence))

abbrev pub same_delivery : String → String → InboundRow → Bool
same_delivery source event_id r = str_eq r.source source && str_eq r.event_id event_id

-- INSERT INTO inbound_events … ON CONFLICT DO NOTHING: `false` if it was there already.
unfoldable pub claim_inbound : String → String → Tx Bool
claim_inbound source event_id db =
    if any (same_delivery source event_id) db.inbound
    then ok false db
    else ok true (record db {
      inbound = record { source = source; event_id = event_id; received_at = db.now } ∷ db.inbound;
    })
