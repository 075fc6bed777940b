-- ===== src/System/Retries.antt =====
-- An operator's retry of a deposit that was refused before it was paid.
use mathlib.Core.Path.{subst}
use gum_server.Prelude.{ℕ, ◌+◌, String, ◌≡◌, refl, ap, ◌∙◌, true, Option, some, List, [], ◌∷◌}
use gum_server.Prelude.Json.{Value, string, field, object, end, empty_object}
use gum_server.Deposit.{Deposit}
use gum_server.Deposit.Status.{paid, is_open}
use gum_server.Deposit.Events as Events
use gum_server.Store.Db.{Db, after, row, submit_execute, OutboxJob}
use gum_server.Store.Numbering.{Numbered}
use gum_server.Store.Recorded.{bumped}
use gum_server.Store.Effects.{recorded_db, recorded-row, with_execute, queued_job}
use gum_server.Store.Retried.{refused_row, retried_row, fail_open_lem, retry_settlement_lem}
use gum_server.Webhooks.Outcome.{ChainCodec}
use gum_server.System.{watch_refused, settlement_retried, step, run}
use gum_server.System.Safety.{step-IsSafe}
use gum_server.System.Deposits.{Numbered-IsSafe}

module _ (chain : ChainCodec) (uuid_time : ℕ → Option ℕ) (id : ℕ) (code message : String) (db : Db)
    (d : Deposit) where
  abbrev refused : Deposit
  refused = refused_row code message db.now d

  abbrev refusal : Value
  refusal = object (field "code" (string code) (field "message" (string message) end))

  abbrev refused_db : Db
  refused_db = recorded_db id db d refused Events.failed refusal

  abbrev retried : Deposit
  retried = retried_row refused_db.now (bumped refused)

  abbrev retried_db : Db
  retried_db =
      with_execute retried.id (retried.event_seq + 1)
        (recorded_db id refused_db (bumped refused) retried Events.settlement_retried empty_object)

  module _ (numbered : Numbered db.deposits db.timeline) (found : row id db.deposits ≡ some d) where
    module _ (h : is_open d.status ≡ true) where
      refused_step : step chain uuid_time (watch_refused id code message) db ≡ refused_db
      unfolding step
      refused_step = ap (after db) (fail_open_lem id db d numbered found code message h)

      refused-Numbered : Numbered refused_db.deposits refused_db.timeline
      refused-Numbered =
          subst (λ x. Numbered x.deposits x.timeline) refused_step
            (step-IsSafe Numbered-IsSafe chain uuid_time (watch_refused id code message) db
              numbered)

      refused_found : row id refused_db.deposits ≡ some (bumped refused)
      refused_found = recorded-row id db d refused Events.failed refusal found refl

      retried_step : step chain uuid_time (settlement_retried id) refused_db ≡ retried_db
      unfolding step
      retried_step =
          ap (after refused_db) (
            retry_settlement_lem id refused_db (bumped refused) refused-Numbered refused_found refl)

      retried_run :
          run chain uuid_time (watch_refused id code message ∷ settlement_retried id ∷ []) db
          ≡ retried_db
      unfolding run
      retried_run =
          ap (λ x. step chain uuid_time (settlement_retried id) x) refused_step ∙ retried_step

      -- A deposit that is open, that the indexer refuses to watch and that an operator then retries,
      -- is paid without a payment: its confirmed total is what it was, and the newest row of the
      -- outbox is an `execute`.
      pub retried_unpaid :
          let db' =
            run chain uuid_time (watch_refused id code message ∷ settlement_retried id ∷ []) db in
          (e : Deposit) × (row id db'.deposits ≡ some e)
          × (e.status ≡ paid)
          × (e.confirmed_amount ≡ d.confirmed_amount)
          × (job : OutboxJob) × (rest : List OutboxJob) × (db'.outbox ≡ job ∷ rest)
          × (job.kind ≡ submit_execute)
      retried_unpaid = (
        bumped retried,
        ap (λ x. row id x.deposits) retried_run
            ∙ recorded-row id refused_db (bumped refused) retried Events.settlement_retried
                empty_object refused_found refl,
        refl,
        refl,
        queued_job retried.id (retried.event_seq + 1) (
            recorded_db id refused_db (bumped refused) retried Events.settlement_retried
              empty_object),
        (recorded_db id refused_db (bumped refused) retried Events.settlement_retried
            empty_object).outbox,
        ap (λ x. x.outbox) retried_run,
        refl,
      )
