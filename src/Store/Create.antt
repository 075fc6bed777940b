-- ===== src/Store/Create.antt =====
-- src/deposit/store.rs, "Create" and `prune`: a deposit is stored with its idempotency key, its first
-- event and the job that registers its watch, or not at all. `NewDeposit` is that of
-- src/deposit/request.rs.
use gum_server.Prelude.{
  ℕ, ◌+◌, String, Bool, true, false, ◌&&◌, ◌||◌, not, Option, none, some, List, ◌∷◌, ◌==◌, str_eq,
  if◌then◌else◌, is_some, first, any, select, ltb,
}
use gum_server.Prelude.Json.{empty_object}
use gum_server.Deposit.{Deposit, CallView}
use gum_server.Deposit.Status.{pending}
use gum_server.Deposit.Events as Events
use gum_server.Store.Db.{
  Db, Tx, ok, err, unique_violation, protocol, pure, ◌>>=◌, ◌>>◌, row, IdempotencyRow, InboundRow,
  register_watch, no_payload, now_v7, clock,
}
use gum_server.Store.Record.{record_event, enqueue}

pub record NewDeposit : Type 0 where
  pub chain_id : ℕ
  pub token_symbol : String
  pub token_address : ℕ
  pub token_decimals : ℕ
  pub amount : ℕ
  pub receiver : ℕ
  pub calls : List CallView
  pub recovery : ℕ
  pub salt : ℕ
  pub expires_at : ℕ
  pub payment_address : ℕ
  pub reference : Option ℕ
  pub webhook_url : Option String

pub data CreateOutcome : Type 0 where
  created replayed : Deposit → CreateOutcome
  conflict : CreateOutcome

pub record Idempotency : Type 0 where
  pub key : String
  pub fingerprint : ℕ

-- The row that the INSERT writes, with the columns' defaults.
abbrev pub new_row : ℕ → String → NewDeposit → ℕ → Deposit
new_row id user_id new now = record {
  id = id;
  user_id = user_id;
  chain_id = new.chain_id;
  token_symbol = new.token_symbol;
  token_address = new.token_address;
  token_decimals = new.token_decimals;
  amount = new.amount;
  receiver = new.receiver;
  calls = new.calls;
  recovery = new.recovery;
  salt = new.salt;
  expires_at = new.expires_at;
  payment_address = new.payment_address;
  reference = new.reference;
  webhook_url = new.webhook_url;
  status = pending;
  confirmed_amount = 0;
  watch_id = none;
  watch_registered_at = none;
  engine_job_id = none;
  engine_submitted_at = none;
  tx_hash = none;
  block_number = none;
  failure_code = none;
  failure_message = none;
  failure_revert_data = none;
  event_seq = 0;
  detected_at = none;
  settled_at = none;
  failed_at = none;
  expired_at = none;
  created_at = now;
  updated_at = now;
}

abbrev pub same_address : ℕ → ℕ → Deposit → Bool
same_address chain_id address d = d.chain_id == chain_id && d.payment_address == address

-- Under PRIMARY KEY (id) and UNIQUE (chain_id, payment_address).
unfoldable pub insert_deposit : Deposit → Tx Deposit
insert_deposit d db =
    if is_some (row d.id db.deposits) || any (same_address d.chain_id d.payment_address) db.deposits
    then err unique_violation
    else ok d (record db { deposits = d ∷ db.deposits })

abbrev pub same_key : String → String → IdempotencyRow → Bool
same_key user_id key r = str_eq r.user_id user_id && str_eq r.key key

-- INSERT INTO idempotency_keys … ON CONFLICT DO NOTHING: whether the key was claimed.
unfoldable pub claim_key : String → Idempotency → ℕ → Tx Bool
claim_key user_id idem id db =
    if any (same_key user_id idem.key) db.idempotency
    then ok false db
    else ok true (record db {
      idempotency =
          record {
            user_id = user_id;
            key = idem.key;
            request_hash = idem.fingerprint;
            deposit_id = id;
            created_at = db.now;
          }
          ∷ db.idempotency;
    })

unfoldable pub lookup_idempotent : String → Idempotency → Db → Option CreateOutcome
lookup_idempotent user_id idem db = elim (first (same_key user_id idem.key) db.idempotency) [
  | none ↦ none
  | some r ↦
      if not (r.request_hash == idem.fingerprint)
      then some conflict
      else elim (row r.deposit_id db.deposits) [ none ↦ none | some d ↦ some (replayed d) ]
]

-- `true` unless there is a key and another session has claimed it.
unfoldable pub claim_optional : String → Option Idempotency → ℕ → Tx Bool
unfolding claim_key
claim_optional user_id none id = pure true
claim_optional user_id (some idem) id = claim_key user_id idem id

abbrev pub finish_create : Bool → Deposit → Tx (Option Deposit)
finish_create false d = pure none
finish_create true d = do
  record_event d Events.created empty_object
  enqueue register_watch d.id no_payload
  pure (some d)

-- The transaction of `create_deposit`; with `none` it is rolled back.
unfoldable pub insert_new : String → NewDeposit → Option Idempotency → Tx (Option Deposit)
insert_new user_id new idempotency = do
  id ← now_v7
  now ← clock
  d ← insert_deposit (new_row id user_id new now)
  claimed ← claim_optional user_id idempotency id
  finish_create claimed d

abbrev pub lookup_optional : String → Option Idempotency → Db → Option CreateOutcome
lookup_optional user_id none db = none
lookup_optional user_id (some idem) db = lookup_idempotent user_id idem db

-- What other sessions commit while this one is between its statements: after the fast path, and
-- after the rollback of a lost race.
pub record Meanwhile : Type 0 where
  pub after_lookup : Db → Db
  pub after_rollback : Db → Db

unfoldable pub create_deposit :
    Meanwhile → String → NewDeposit → Option Idempotency → Tx CreateOutcome
unfolding insert_new lookup_idempotent
create_deposit others user_id new idempotency db = elim (lookup_optional user_id idempotency db) [
  | some outcome ↦ ok outcome db
  | none ↦
      let db₁ = others.after_lookup db in
      elim (insert_new user_id new idempotency db₁) [
        | err e ↦ err e
        | ok (some d) db₂ ↦ ok (created d) db₂
        | ok none db₂ ↦
            let db₃ = others.after_rollback db₁ in
            elim (lookup_optional user_id idempotency db₃) [
              | some outcome ↦ ok outcome db₃
              | none ↦ err (protocol "idempotency row vanished")
            ]
      ]
]

-- Seven days, in milliseconds.
abbrev pub inbound_ttl : ℕ
inbound_ttl = 604_800_000

-- Forgets old idempotency keys and inbound event ids.
unfoldable pub prune : ℕ → Tx (Unit {0})
prune ttl db = ok tt (record db {
  idempotency =
      select (λ (r : IdempotencyRow). not (ltb (r.created_at + ttl) db.now)) db.idempotency;
  inbound = select (λ (r : InboundRow). not (ltb (r.received_at + inbound_ttl) db.now)) db.inbound;
})
