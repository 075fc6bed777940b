-- ===== src/Webhooks/Redelivery.antt =====
-- An event id that was claimed once stays claimed by every statement of the handlers, so that a
-- second delivery is seen to be one.
use text.Mathlib.TextPositions.{eq_refl}
use gum_server.Prelude.{ℕ, String, ◌≡◌, refl, true, arith, any, Option, false}
use gum_server.Store.Db.{Db, ok, ◌>>=◌}
use gum_server.Store.Record.{same_delivery, claim_inbound, enqueue}
use gum_server.Store.Keeps.{After, committed, IsClosed, update_row-After, record_event-After}
use gum_server.Webhooks.Handlers as Handlers
use gum_server.Webhooks.Outcome.{EngineEvent, ChainCodec}
use gum_server.Webhooks.Inbound.{
  IndexerEvent, Ack, duplicate, apply_indexer_event, apply_engine_event,
}

abbrev pub IsClaimed : String → String → Db → Type 0
IsClaimed source event_id db = any (same_delivery source event_id) db.inbound ≡ true

IsClaimed-IsClosed : (source event_id : String) → IsClosed (IsClaimed source event_id)
unfolding enqueue
IsClaimed-IsClosed source event_id = record {
  update = λ id guard set a. record {
    apply = λ db h. update_row-After (IsClaimed source event_id) id guard set db h λ old f g. h;
  };
  recorded = λ d t v. record {
    apply =
        λ db h. record_event-After (IsClaimed source event_id) d t v db λ old found. ground arith;
  };
  enqueued = λ kind id p. record { apply = λ db h. h };
}

claim_inbound-claims :
    (source event_id : String) (db : Db)
    → After (IsClaimed source event_id) (claim_inbound source event_id db)
unfolding claim_inbound
claim_inbound-claims source event_id db = ground (arith, eq_refl source, eq_refl event_id)

claim_inbound-claimed :
    (source event_id : String) (db : Db)
    → IsClaimed source event_id db
    → claim_inbound source event_id db ≡ ok false db
unfolding claim_inbound
claim_inbound-claimed source event_id db h = rw h refl

claimed_indexer :
    (e : IndexerEvent) (db : Db)
    → IsClaimed "indexer" e.id db
    → apply_indexer_event e db ≡ ok duplicate db
unfolding apply_indexer_event
claimed_indexer e db h =
    rw (claim_inbound-claimed "indexer" e.id db h, apply_indexer_event, ◌>>=◌) refl

-- A delivery of the indexer that was committed is acknowledged as a duplicate when it comes again,
-- and then changes nothing.
pub indexer_redelivered :
    (e : IndexerEvent) (a : Ack) (db db' : Db)
    → apply_indexer_event e db ≡ ok a db'
    → apply_indexer_event e db' ≡ ok duplicate db'
indexer_redelivered e a db db' h = claimed_indexer e db' (
    committed (IsClaimed "indexer" e.id) (apply_indexer_event e db) a db'
      (Handlers.apply_indexer_event-After (IsClaimed-IsClosed "indexer" e.id) e db
        (claim_inbound-claims "indexer" e.id db))
      h)

module _ (chain : ChainCodec) (uuid_time : ℕ → Option ℕ) (e : EngineEvent) where
  claimed_engine :
      (db : Db)
      → IsClaimed "engine" e.event_id db
      → apply_engine_event chain uuid_time e db ≡ ok duplicate db
  unfolding apply_engine_event
  claimed_engine db h =
      rw (claim_inbound-claimed "engine" e.event_id db h, apply_engine_event, ◌>>=◌) refl

  -- A delivery of the engine that was committed is acknowledged as a duplicate when it comes again,
  -- and then changes nothing.
  pub engine_redelivered :
      (a : Ack) (db db' : Db)
      → apply_engine_event chain uuid_time e db ≡ ok a db'
      → apply_engine_event chain uuid_time e db' ≡ ok duplicate db'
  engine_redelivered a db db' h = claimed_engine db' (
      committed (IsClaimed "engine" e.event_id) (apply_engine_event chain uuid_time e db) a db'
        (Handlers.apply_engine_event-After (IsClaimed-IsClosed "engine" e.event_id) chain uuid_time
          e db (claim_inbound-claims "engine" e.event_id db))
        h)
