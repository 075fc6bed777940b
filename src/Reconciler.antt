-- ===== src/Reconciler.antt =====
-- src/reconciler.rs and the queries of src/deposit/store.rs that it uses: one tick of the safety net
-- for lost webhooks. The upstreams' answers are parameters, and so is what other sessions commit
-- while one is awaited.
use gum_server.Prelude.{
  ℕ, ◌+◌, ◌*◌, String, Bool, true, false, ◌&&◌, ◌||◌, Option, none, some, List, [], ◌∷◌, map, ltb,
  str_eq, if◌then◌else◌, is_some, unwrap_or, select, take, sort_by,
}
use gum_server.Prelude.Json.{
  Value, boolean, number, string, object, field, end, opt_string, opt_number,
}
use gum_server.Deposit.{Deposit}
use gum_server.Deposit.Status.{is_open, is_paid}
use gum_server.Store.Db.{Db, Result, ok, err, DbError, Tx, pure, ◌>>=◌}
use gum_server.Store.Create.{prune}
use gum_server.Store.Transitions.{
  apply_threshold_reached, apply_expired, apply_payment_confirmed, reregister_watch, touch,
  resubmit,
}
use gum_server.Webhooks.Outcome.{
  EngineError, Receipt, ChainCodec, SettlementOutcome, from_receipt, engine_failure,
}
use gum_server.Webhooks.Inbound.{apply_settlement}

-- A tick stops at the first error; what it committed before stays.
pub data Progress : Type 0 where
  finished : Db → Progress
  aborted : DbError → Db → Progress

abbrev pub reached : Progress → Db
reached (finished db) = db
reached (aborted e db) = db

-- A transaction, then the rest unless it fails.
abbrev pub then_run : {A : Type 0} → Db → Result A → (A → Db → Progress) → Progress
then_run db (ok a db') k = k a db'
then_run db (err e) k = aborted e db

abbrev pub and_then : Progress → (Db → Progress) → Progress
and_then (finished db) k = k db
and_then (aborted e db) k = aborted e db

abbrev pub expiry_grace_secs : ℕ
expiry_grace_secs = 86_400

abbrev pub batch : ℕ
batch = 100

abbrev pub is_overdue : ℕ → ℕ → Deposit → Bool
is_overdue now grace d = is_open d.status && ltb (d.expires_at + grace * 1000) now

abbrev pub overdue_json : Value
overdue_json = object (field "reason" (string "expiry passed without threshold") end)

unfoldable pub expire_each : List ℕ → Db → Progress
expire_each [] db = finished db
expire_each (id ∷ ids) db =
    then_run db (apply_expired id overdue_json db) λ _ db'. expire_each ids db'

unfoldable pub expire_overdue : ℕ → ℕ → Db → Progress
unfolding expire_each
expire_overdue grace limit db =
    expire_each
      (map (λ (d : Deposit). d.id) (take limit (select (is_overdue db.now grace) db.deposits))) db

-- src/clients/indexer.rs: `GET /v1/watches/{id}`.
pub record WatchDetail : Type 0 where
  pub status : String
  pub confirmed_amount : Option ℕ

-- src/clients/engine.rs: `GET /v1/transactions/{id}`.
pub record Job : Type 0 where
  pub status : String
  pub outcome : Option String
  pub tx_hash : Option ℕ
  pub block_number : Option ℕ
  pub receipt : Option Receipt
  pub error : Option EngineError

-- The answer to a poll: found, unknown there, refused (`Rejected`), or no answer.
pub data Poll (A : Type 0) : Type 0 where
  found : A → Poll A
  unknown refused unavailable : Poll A

pub record Polls : Type 0 where
  pub indexer_configured : Bool
  pub get_watch : ℕ → Poll WatchDetail
  pub engine_configured : Bool
  pub get_job : ℕ → Poll Job
  pub others : Db → Db

pub record ReconcilerConfig : Type 0 where
  pub open_stale_secs : ℕ
  pub paid_stale_secs : ℕ
  pub paid_repoll_secs : ℕ
  pub idempotency_ttl_secs : ℕ

abbrev pub is_stale_open : ℕ → ℕ → Deposit → Bool
is_stale_open now secs d =
    is_open d.status && (is_some d.watch_id && ltb (d.updated_at + secs * 1000) now)

unfoldable pub stale_open : ℕ → ℕ → Db → List Deposit
stale_open secs limit db =
    take limit (sort_by (λ d. d.updated_at) (select (is_stale_open db.now secs) db.deposits))

abbrev pub is_stale_paid : ℕ → ℕ → ℕ → Deposit → Bool
is_stale_paid now stale repoll d =
    is_paid d.status
    && (is_some d.engine_job_id
        && (ltb (unwrap_or d.engine_submitted_at d.updated_at + stale * 1000) now
            && ltb (d.updated_at + repoll * 1000) now))

unfoldable pub stale_paid : ℕ → ℕ → ℕ → Db → List Deposit
stale_paid stale repoll limit db =
    take limit
      (sort_by (λ d. d.updated_at) (select (is_stale_paid db.now stale repoll) db.deposits))

abbrev pub watch_total : WatchDetail → ℕ
watch_total w = unwrap_or w.confirmed_amount 0

abbrev watch_json : ℕ → ℕ → WatchDetail → Value
watch_json now watch_id w = object (
    field "watch_id" (number watch_id) (
      field "polled_at" (number now) (
        field "watch_status" (string w.status) (
          field "confirmed_amount" (number (watch_total w))
            (field "source" (string "reconciler") end)))))

-- The transition that the indexer's view calls for; `d` is the row as it was read.
unfoldable pub apply_watch : ℕ → Deposit → ℕ → WatchDetail → Tx Bool
apply_watch now d watch_id w =
    let v = watch_json now watch_id w in
    let changed = λ (o : Option Deposit). pure (is_some o) in
    if str_eq w.status "completed"
    then apply_threshold_reached d.id (watch_total w) v >>= changed
    else if str_eq w.status "expired" || str_eq w.status "cancelled"
    then apply_expired d.id v >>= changed
    else if ltb d.confirmed_amount (watch_total w)
    then apply_payment_confirmed d.id (watch_total w) v >>= changed
    else pure false

-- One deposit's watch as it was polled, and then the rest.
abbrev pub reconcile_watch : Poll WatchDetail → ℕ → Deposit → ℕ → Db → (Db → Progress) → Progress
reconcile_watch unknown now d w db rest = then_run db (reregister_watch d.id db) λ _ db'. rest db'
reconcile_watch refused now d w db rest = rest db
reconcile_watch unavailable now d w db rest = finished db
reconcile_watch (found watch) now d w db rest =
    then_run db (apply_watch now d w watch db)
      λ changed db'. if changed then rest db' else then_run db' (touch d.id db') λ _ db''. rest db''

abbrev job_json : ℕ → ℕ → Job → Value
job_json now job_id j = object (
    field "engine_job_id" (number job_id) (
      field "polled_at" (number now) (
        field "status" (string j.status) (
          field "outcome" (opt_string j.outcome) (
            field "tx_hash" (opt_number j.tx_hash) (
              field "block_number" (opt_number j.block_number)
                (field "source" (string "reconciler") end)))))))

-- What a polled job means; `none` while it is in flight.
unfoldable pub job_outcome : ChainCodec → ℕ → Deposit → ℕ → Job → Option SettlementOutcome
job_outcome chain now d job_id j =
    if str_eq j.status "confirmed"
    then some (
        from_receipt chain j.outcome j.tx_hash j.block_number j.receipt j.error d
          (job_json now job_id j))
    else if str_eq j.status "failed"
    then some (engine_failure chain j.error j.tx_hash d (job_json now job_id j))
    else none

abbrev pub unknown_json : Value
unknown_json =
    object (field "automatic" (boolean true) (field "reason" (string "engine_job_unknown") end))

-- One deposit's engine job as it was polled, and then the rest.
abbrev pub reconcile_job : ChainCodec → Poll Job → ℕ → Deposit → ℕ → Db → (Db → Progress) → Progress
reconcile_job chain unknown now d j db rest =
    then_run db (resubmit d.id unknown_json db) λ _ db'. rest db'
reconcile_job chain refused now d j db rest = rest db
reconcile_job chain unavailable now d j db rest = finished db
reconcile_job chain (found job) now d j db rest = elim (job_outcome chain now d j job) [
  | none ↦ then_run db (touch d.id db) λ _ db'. rest db'
  | some outcome ↦ then_run db (apply_settlement d outcome db) λ _ db'. rest db'
]

module _ (polls : Polls) where
  unfoldable pub reconcile_open : List Deposit → Db → Progress
  unfolding apply_watch
  reconcile_open [] db = finished db
  reconcile_open (d ∷ ds) db =
      let rest = reconcile_open ds in
      elim d.watch_id [
        | none ↦ rest db
        | some w ↦
            reconcile_watch (polls.get_watch w) (polls.others db).now d w (polls.others db) rest
      ]

  unfoldable pub reconcile_paid : ChainCodec → List Deposit → Db → Progress
  unfolding job_outcome
  reconcile_paid chain [] db = finished db
  reconcile_paid chain (d ∷ ds) db =
      let rest = reconcile_paid chain ds in
      elim d.engine_job_id [
        | none ↦ rest db
        | some j ↦
            reconcile_job chain (polls.get_job j) (polls.others db).now d j (polls.others db) rest
      ]

  unfoldable pub tick : ChainCodec → ReconcilerConfig → Db → Progress
  unfolding expire_overdue stale_open stale_paid reconcile_open reconcile_paid prune
  tick chain c db = and_then (expire_overdue expiry_grace_secs 500 db) λ db₁.
      and_then
        (if polls.indexer_configured
          then reconcile_open (stale_open c.open_stale_secs batch db₁) db₁
          else finished db₁)
        λ db₂.
          and_then
            (if polls.engine_configured
              then reconcile_paid chain (stale_paid c.paid_stale_secs c.paid_repoll_secs batch db₂)
                  db₂
              else finished db₂)
            λ db₃. then_run db₃ (prune (c.idempotency_ttl_secs * 1000) db₃) λ _ db₄. finished db₄
