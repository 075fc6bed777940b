-- ===== src/Store/Closed.antt =====
-- Each transition of the store keeps whatever its statements keep.
use gum_server.Prelude.{ℕ, String, Bool, Option, List}
use gum_server.Prelude.Json.{Value}
use gum_server.Store.Db.{Db, update_deposit}
use gum_server.Store.Record.{enqueue_execute}
use gum_server.Store.Transitions.{
  get, mark_watch_registered, attach_watch, apply_payment_pending, apply_payment_confirmed,
  apply_payment_orphaned, apply_threshold_reached, apply_expired, mark_engine_submitted,
  apply_settlement_included, apply_settled, apply_failed, retry_settlement, reregister_watch, touch,
  fail_open, resubmit,
}
use gum_server.Store.Keeps.{Keeps, Keeps-pure, Keeps-bind, Keeps-on_some, Keeps-if, IsClosed}
use gum_server.Store.Allowed.{
  watch_registered-Allowed, watch_attached-Allowed, pending-Allowed, confirmed-Allowed,
  reached-Allowed, expired-Allowed, submitted-Allowed, included-Allowed, settled-Allowed,
  failed-Allowed, retried-Allowed, reregistered-Allowed, touched-Allowed, refused-Allowed,
  detached-Allowed,
}

ruleset forms = (Keeps-pure, Keeps-bind, Keeps-on_some, Keeps-if)

module _ {ℓ} {P : Db → Type ℓ} (c : IsClosed P) where
  enqueue_execute-Keeps : (id sequence : ℕ) → Keeps P (enqueue_execute id sequence)
  unfolding enqueue_execute
  enqueue_execute-Keeps id sequence = c.enqueued _ id _

  pub mark_watch_registered-Keeps : (id watch_id : ℕ) → Keeps P (mark_watch_registered id watch_id)
  unfolding mark_watch_registered update_deposit
  mark_watch_registered-Keeps id watch_id =
      search (forms, c.recorded, c.update, watch_registered-Allowed)

  pub attach_watch-Keeps : (id watch_id : ℕ) → Keeps P (attach_watch id watch_id)
  unfolding attach_watch update_deposit
  attach_watch-Keeps id watch_id = search (forms, c.update, watch_attached-Allowed)

  pub apply_payment_pending-Keeps : (id : ℕ) (v : Value) → Keeps P (apply_payment_pending id v)
  unfolding apply_payment_pending update_deposit
  apply_payment_pending-Keeps id v = search (forms, c.recorded, c.update, pending-Allowed)

  pub apply_payment_confirmed-Keeps :
      (id confirmed : ℕ) (v : Value) → Keeps P (apply_payment_confirmed id confirmed v)
  unfolding apply_payment_confirmed update_deposit
  apply_payment_confirmed-Keeps id confirmed v =
      search (forms, c.recorded, c.update, confirmed-Allowed)

  get-Keeps : (id : ℕ) → Keeps P (get id)
  unfolding get
  get-Keeps id = record { apply = λ db h. h }

  pub apply_payment_orphaned-Keeps : (id : ℕ) (v : Value) → Keeps P (apply_payment_orphaned id v)
  unfolding apply_payment_orphaned
  apply_payment_orphaned-Keeps id v = search (forms, c.recorded, get-Keeps)

  pub apply_threshold_reached-Keeps :
      (id confirmed : ℕ) (v : Value) → Keeps P (apply_threshold_reached id confirmed v)
  unfolding apply_threshold_reached update_deposit
  apply_threshold_reached-Keeps id confirmed v =
      search (forms, c.recorded, enqueue_execute-Keeps, c.update, reached-Allowed)

  pub apply_expired-Keeps : (id : ℕ) (v : Value) → Keeps P (apply_expired id v)
  unfolding apply_expired update_deposit
  apply_expired-Keeps id v = search (forms, c.recorded, c.update, expired-Allowed)

  pub mark_engine_submitted-Keeps :
      (id job_id : ℕ) (replayed : Bool) → Keeps P (mark_engine_submitted id job_id replayed)
  unfolding mark_engine_submitted update_deposit
  mark_engine_submitted-Keeps id job_id replayed =
      search (forms, c.recorded, c.update, submitted-Allowed) depth 8

  pub apply_settlement_included-Keeps :
      (id tx_hash : ℕ) (block : Option ℕ) (v : Value)
      → Keeps P (apply_settlement_included id tx_hash block v)
  unfolding apply_settlement_included update_deposit
  apply_settlement_included-Keeps id tx_hash block v =
      search (forms, c.recorded, c.update, included-Allowed)

  pub apply_settled-Keeps :
      (id tx_hash : ℕ) (block : Option ℕ) (v : Value) → Keeps P (apply_settled id tx_hash block v)
  unfolding apply_settled update_deposit
  apply_settled-Keeps id tx_hash block v = search (forms, c.recorded, c.update, settled-Allowed)

  pub apply_failed-Keeps :
      (id : ℕ) (code message : String) (tx_hash : Option ℕ) (revert : Option (List ℕ)) (v : Value)
      → Keeps P (apply_failed id code message tx_hash revert v)
  unfolding apply_failed update_deposit
  apply_failed-Keeps id code message tx_hash revert v =
      search (forms, c.recorded, c.update, failed-Allowed)

  pub retry_settlement-Keeps : (id : ℕ) → Keeps P (retry_settlement id)
  unfolding retry_settlement update_deposit
  retry_settlement-Keeps id =
      search (forms, c.recorded, enqueue_execute-Keeps, c.update, retried-Allowed)

  pub reregister_watch-Keeps : (id : ℕ) → Keeps P (reregister_watch id)
  unfolding reregister_watch update_deposit
  reregister_watch-Keeps id = search (forms, c.recorded, c.enqueued, c.update, reregistered-Allowed)

  pub touch-Keeps : (id : ℕ) → Keeps P (touch id)
  unfolding touch update_deposit
  touch-Keeps id = search (forms, c.update, touched-Allowed)

  pub fail_open-Keeps : (id : ℕ) (code message : String) → Keeps P (fail_open id code message)
  unfolding fail_open update_deposit
  fail_open-Keeps id code message = search (forms, c.recorded, c.update, refused-Allowed)

  pub resubmit-Keeps : (id : ℕ) (v : Value) → Keeps P (resubmit id v)
  unfolding resubmit update_deposit
  resubmit-Keeps id v =
      search (forms, c.recorded, enqueue_execute-Keeps, c.update, detached-Allowed)
