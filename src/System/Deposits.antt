-- ===== src/System/Deposits.antt =====
-- The deposits and their timelines, over every sequence of transactions.
use gum_server.Prelude.{ℕ, ◌≡◌, true, Option, some, List}
use gum_server.Deposit.{Deposit}
use gum_server.Deposit.Lifecycle.{Later, Later-refl, is_final, final-⟶*}
use gum_server.Store.Db.{Db, row}
use gum_server.Store.Evolution.{Evolves, AllConsistent, Evolves-IsClosed, AllConsistent-IsClosed}
use gum_server.Store.Numbering.{Numbered, Numbered-IsClosed}
use gum_server.Store.Inserted.{
  insert_deposit-Evolves, insert_deposit-AllConsistent, insert_deposit-Numbered,
}
use gum_server.Webhooks.Outcome.{ChainCodec}
use gum_server.System.{Op, run}
use gum_server.System.Safety.{IsSafe, run-IsSafe}

pub Evolves-IsSafe : (origin : List Deposit) → IsSafe (λ ds es. Evolves origin ds)
Evolves-IsSafe origin = record {
  closed = Evolves-IsClosed origin;
  inserted = λ id user new now. insert_deposit-Evolves id user new now origin;
}

AllConsistent-IsSafe : IsSafe (λ ds es. AllConsistent ds)
AllConsistent-IsSafe = record {
  closed = AllConsistent-IsClosed;
  inserted = insert_deposit-AllConsistent;
}

pub Numbered-IsSafe : IsSafe Numbered
Numbered-IsSafe = record { closed = Numbered-IsClosed; inserted = insert_deposit-Numbered }

module _ (chain : ChainCodec) (uuid_time : ℕ → Option ℕ) (os : List Op) (db : Db) where
  -- Whatever transactions are committed, a deposit that was stored still is; its status has moved
  -- along edges of the state machine, its event sequence has not fallen, and its terms (chain,
  -- token, amount, receiver, calls, recovery, salt, expiry and payment address) are as they were.
  pub run-Evolves :
      (j : ℕ) (d : Deposit)
      → row j db.deposits ≡ some d
      → (e : Deposit) × (row j (run chain uuid_time os db).deposits ≡ some e) × Later d e
  run-Evolves j d found =
      run-IsSafe (Evolves-IsSafe db.deposits) chain uuid_time os db (λ i x e. (x, e, Later-refl x))
        j d found

  -- Whatever transactions are committed, a deposit that is settled or expired keeps its status.
  pub run-final :
      (j : ℕ) (d : Deposit)
      → row j db.deposits ≡ some d
      → is_final d.status ≡ true
      → (e : Deposit) × (row j (run chain uuid_time os db).deposits ≡ some e)
        × (e.status ≡ d.status)
  run-final j d found h =
      let (e, at, later) = run-Evolves j d found in (e, at, final-⟶* later.moved h)

  -- Transactions keep the columns of every row consistent: the stamps and codes of a settled, failed
  -- or expired deposit are set exactly in that status, an engine job is recorded with its time and
  -- only while the deposit is paid, settled or failed, and a settled deposit has a transaction hash.
  pub run-AllConsistent :
      AllConsistent db.deposits → AllConsistent (run chain uuid_time os db).deposits
  run-AllConsistent h = run-IsSafe AllConsistent-IsSafe chain uuid_time os db h

  -- Transactions keep every timeline numbered: the sequences of a deposit's events are 1, 2, … up
  -- to its `event_seq`, with none missing and none twice.
  pub run-Numbered :
      Numbered db.deposits db.timeline
      → let db' = run chain uuid_time os db in Numbered db'.deposits db'.timeline
  run-Numbered h = run-IsSafe Numbered-IsSafe chain uuid_time os db h
