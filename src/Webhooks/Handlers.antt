-- ===== src/Webhooks/Handlers.antt =====
-- The handlers keep whatever the store's statements keep, where that does not depend on the claims of
-- inbound events.
use gum_server.Prelude.{ℕ, String, Bool, true, false, Option, none, some}
use gum_server.Deposit.{Deposit}
use gum_server.Store.Db.{Db, Tx}
use gum_server.Store.Record.{claim_inbound}
use gum_server.Store.Keeps.{
  After, After-bind, Keeps, Keeps-pure, Keeps-throw, Keeps-bind, Keeps-on_true, Keeps-if, IsClosed,
}
use gum_server.Store.Closed as Closed
use gum_server.Webhooks.Outcome.{
  EngineEvent, Failure, SettlementOutcome, included, settled, failed, pending, ChainCodec,
}
use gum_server.Webhooks.Inbound.{
  IndexerEvent, Ack, apply_indexer_type, apply_watched, find_in, unless_duplicate,
  apply_indexer_event, record_failure, retry_or_record, apply_failure, apply_settlement,
  apply_to_job, apply_engine_event,
}

-- A predicate that does not read the claims.
abbrev pub IgnoresClaims {ℓ} : (Db → Type ℓ) → Type ℓ
IgnoresClaims P = (source event_id : String) → Keeps P (claim_inbound source event_id)

module _ {ℓ} {P : Db → Type ℓ} (c : IsClosed P) where
  find_in-Keeps : {A : Type 0} (f : Db → A) → Keeps P (find_in f)
  unfolding find_in
  find_in-Keeps f = record { apply = λ db h. h }

  unless_duplicate-Keeps : (b : Bool) {m : Tx Ack} → Keeps P m → Keeps P (unless_duplicate b m)
  unless_duplicate-Keeps true k = k
  unless_duplicate-Keeps false k = Keeps-pure _

  apply_indexer_type-Keeps : (d : Deposit) (e : IndexerEvent) → Keeps P (apply_indexer_type d e)
  unfolding apply_indexer_type
  apply_indexer_type-Keeps d e = Keeps-if _ (Closed.apply_payment_pending-Keeps c d.id _) (
      Keeps-if _ (Closed.apply_payment_confirmed-Keeps c d.id _ _) (
        Keeps-if _ (Closed.apply_payment_orphaned-Keeps c d.id _) (
          Keeps-if _ (Closed.apply_threshold_reached-Keeps c d.id _ _)
            (Keeps-if _ (Closed.apply_expired-Keeps c d.id _) (Keeps-pure none)))))

  apply_watched-Keeps : (e : IndexerEvent) (o : Option Deposit) → Keeps P (apply_watched e o)
  unfolding apply_watched
  apply_watched-Keeps e none = Keeps-pure _
  apply_watched-Keeps e (some d) =
      Keeps-bind (Keeps-on_true _ (Closed.attach_watch-Keeps c d.id e.watch.id))
        λ _. Keeps-bind (apply_indexer_type-Keeps d e) λ r. Keeps-pure _

  record_failure-Keeps : (d : Deposit) (f : Failure) → Keeps P (record_failure d f)
  unfolding record_failure
  record_failure-Keeps d f =
      Keeps-bind (Closed.apply_failed-Keeps c d.id f.code f.message f.tx_hash f.revert_data _)
        λ r. Keeps-pure _

  retry_or_record-Keeps : (d : Deposit) (f : Failure) → Keeps P (retry_or_record d f)
  unfolding retry_or_record
  retry_or_record-Keeps d f =
      Keeps-bind (find_in-Keeps _)
        λ n. Keeps-if _ (Closed.resubmit-Keeps c d.id _) (record_failure-Keeps d f)

  apply_failure-Keeps : (d : Deposit) (f : Failure) → Keeps P (apply_failure d f)
  unfolding apply_failure
  apply_failure-Keeps d f = Keeps-if _ (retry_or_record-Keeps d f) (record_failure-Keeps d f)

  pub apply_settlement-Keeps :
      (d : Deposit) (o : SettlementOutcome) → Keeps P (apply_settlement d o)
  unfolding apply_settlement
  apply_settlement-Keeps d (included m) =
      Keeps-bind (Closed.apply_settlement_included-Keeps c d.id m.tx_hash m.block_number _)
        λ r. Keeps-pure _
  apply_settlement-Keeps d (settled m) =
      Keeps-bind (Closed.apply_settled-Keeps c d.id m.tx_hash m.block_number _) λ r. Keeps-pure _
  apply_settlement-Keeps d (failed f) = apply_failure-Keeps d f
  apply_settlement-Keeps d pending = Keeps-pure _

  module _ (chain : ChainCodec) (uuid_time : ℕ → Option ℕ) where
    apply_to_job-Keeps :
        (e : EngineEvent) (o : Option Deposit) → Keeps P (apply_to_job chain uuid_time e o)
    unfolding apply_to_job
    apply_to_job-Keeps e none =
        Keeps-bind (find_in-Keeps _) λ now. Keeps-if _ (Keeps-throw _) (Keeps-pure _)
    apply_to_job-Keeps e (some d) = Keeps-bind (apply_settlement-Keeps d _) λ changed. Keeps-pure _

    pub apply_engine_event-After :
        (e : EngineEvent) (db : Db)
        → After P (claim_inbound "engine" e.event_id db)
        → After P (apply_engine_event chain uuid_time e db)
    unfolding apply_engine_event
    apply_engine_event-After e db h =
        After-bind P (claim_inbound "engine" e.event_id db) _ h λ fresh.
          unless_duplicate-Keeps fresh (Keeps-bind (find_in-Keeps _) λ d. apply_to_job-Keeps e d)

    pub apply_engine_event-Keeps :
        IgnoresClaims P → (e : EngineEvent) → Keeps P (apply_engine_event chain uuid_time e)
    apply_engine_event-Keeps k e = record {
      apply = λ db h. apply_engine_event-After e db ((k "engine" e.event_id).apply db h);
    }

  -- What the claim of the event id gives, the whole delivery gives.
  pub apply_indexer_event-After :
      (e : IndexerEvent) (db : Db)
      → After P (claim_inbound "indexer" e.id db)
      → After P (apply_indexer_event e db)
  unfolding apply_indexer_event
  apply_indexer_event-After e db h = After-bind P (claim_inbound "indexer" e.id db) _ h λ fresh.
      unless_duplicate-Keeps fresh (Keeps-bind (find_in-Keeps _) λ d. apply_watched-Keeps e d)

  pub apply_indexer_event-Keeps :
      IgnoresClaims P → (e : IndexerEvent) → Keeps P (apply_indexer_event e)
  apply_indexer_event-Keeps k e = record {
    apply = λ db h. apply_indexer_event-After e db ((k "indexer" e.id).apply db h);
  }
