-- ===== src/Pay.antt =====
-- src/deposit/pay.rs: the payer's view of a deposit and its long poll, with src/deposit/store.rs,
-- `events_through`. The id is parsed; a text for the time of the response is left out.
pub mod Projected
pub mod Polled
use gum_server.Prelude.{
  ℕ, ◌*◌, ◌-◌, ◌%◌, String, Bool, true, false, ◌&&◌, not, Option, none, some, List, [], ◌∷◌, ◌==◌,
  leb, ltb, if◌then◌else◌, map, select, sort_by,
}
use gum_server.Prelude.Json.{Value, null, object, Fields, end, get_field, insert_field}
use gum_server.Deposit.{Deposit, DepositEvent}
use gum_server.Deposit.Status.{DepositStatus}
use gum_server.Deposit.Events.{EventType}
use gum_server.Deposit.Events as Events
use gum_server.Store.Db.{Db, row}

-- i64, of which only the sign and the size are read.
pub data ℤ : Type 0 where
  pos negsuc : ℕ → ℤ

abbrev pub max_wait_secs : ℕ
max_wait_secs = 25

-- In milliseconds.
abbrev pub timeout_headroom : ℕ
timeout_headroom = 1000

-- PAYER_EVENTS
unfoldable pub is_payer_event : EventType → Bool
is_payer_event Events.created = true
is_payer_event Events.detected = true
is_payer_event Events.payment_confirmed = true
is_payer_event Events.payment_orphaned = true
is_payer_event Events.ready = true
is_payer_event Events.settlement_submitted = true
is_payer_event Events.settlement_included = true
is_payer_event Events.settled = true
is_payer_event Events.failed = true
is_payer_event Events.expired = true
is_payer_event other = false

abbrev pub is_failure : EventType → Bool
is_failure Events.failed = true
is_failure other = false

abbrev pub transfer_fields : List String
transfer_fields =
    "tx_hash" ∷ "log_index" ∷ "block_number" ∷ "block_hash" ∷ "from" ∷ "amount" ∷ "status" ∷ []

abbrev pub data_fields : List String
data_fields = "confirmed_amount" ∷ "tx_hash" ∷ "block_number" ∷ []

-- `filter(|v| !v.is_null())`
abbrev pub non_null : Option Value → Option Value
non_null (some null) = none
non_null other = other

abbrev pub put : String → Option Value → Fields → Fields
put k none into = into
put k (some v) into = insert_field k v into

unfoldable pub pick : Fields → List String → Fields → Fields
unfolding get_field insert_field
pick from [] into = into
pick from (k ∷ ks) into = pick from ks (put k (non_null (get_field k from)) into)

-- The members of a transfer that are kept, where there is one.
abbrev pub put_transfer : Option Value → Fields → Fields
put_transfer (some (object transfer)) out =
    insert_field "transfer" (object (pick transfer transfer_fields end)) out
put_transfer other out = out

unfoldable pub payer_data : EventType → Value → Value
unfolding pick
payer_data event_type (object fs) =
    let out = pick fs data_fields (put_transfer (get_field "transfer" fs) end) in
    object (if is_failure event_type then pick fs ("code" ∷ []) out else out)
payer_data event_type other = object end

pub record PayerEvent : Type 0 where
  pub id : ℕ
  pub sequence : ℕ
  pub event_type : EventType
  pub created_at : ℕ
  pub payer_data : Value

pub record Timestamps : Type 0 where
  pub created_at : ℕ
  pub updated_at : ℕ
  pub detected_at : Option ℕ
  pub settled_at : Option ℕ
  pub failed_at : Option ℕ
  pub expired_at : Option ℕ

pub record PayerView : Type 0 where
  pub id : ℕ
  pub status : DepositStatus
  pub sequence : ℕ
  pub payment_address : ℕ
  pub chain_id : ℕ
  pub token : String
  pub token_address : ℕ
  pub token_decimals : ℕ
  pub amount : ℕ
  pub confirmed_amount : ℕ
  pub expires_at : ℕ
  pub tx_hash : Option ℕ
  pub block_number : Option ℕ
  pub failure_code : Option String
  pub timestamps : Timestamps
  pub events : List PayerEvent

unfoldable pub payer_event : DepositEvent → PayerEvent
unfolding payer_data
payer_event e = record {
  id = e.id;
  sequence = e.sequence;
  event_type = e.event_type;
  created_at = e.created_at;
  payer_data = payer_data e.event_type e.event_data;
}

-- `PayerView::new`
unfoldable pub new_view : Deposit → List DepositEvent → PayerView
unfolding payer_event
new_view d events = record {
  id = d.id;
  status = d.status;
  sequence = d.event_seq;
  payment_address = d.payment_address;
  chain_id = d.chain_id;
  token = d.token_symbol;
  token_address = d.token_address;
  token_decimals = d.token_decimals % 256;
  amount = d.amount;
  confirmed_amount = d.confirmed_amount;
  expires_at = d.expires_at;
  tx_hash = d.tx_hash;
  block_number = d.block_number;
  failure_code = d.failure_code;
  timestamps = record {
    created_at = d.created_at;
    updated_at = d.updated_at;
    detected_at = d.detected_at;
    settled_at = d.settled_at;
    failed_at = d.failed_at;
    expired_at = d.expired_at;
  };
  events = map payer_event events;
}

-- `clamp(0, MAX_WAIT_SECS)` of what was asked, 0 where nothing was.
abbrev pub clamped : Option ℤ → ℕ
clamped (some (pos n)) = if leb n max_wait_secs then n else max_wait_secs
clamped other = 0

unfoldable pub hold_for : Option ℤ → ℕ → ℕ
hold_for requested request_timeout =
    let asked = clamped requested * 1000 in
    let limit = request_timeout - timeout_headroom in if leb asked limit then asked else limit

-- `events_through`: WHERE deposit_id = … AND sequence <= … AND type = ANY(…) ORDER BY sequence
abbrev pub is_shown : ℕ → ℕ → DepositEvent → Bool
is_shown id through e = e.deposit_id == id && leb e.sequence through && is_payer_event e.event_type

unfoldable pub events_through : ℕ → ℕ → List DepositEvent → List DepositEvent
unfolding is_payer_event
events_through id through timeline =
    sort_by (λ e. e.sequence) (select (is_shown id through) timeline)

-- `feed::RESYNC`
abbrev pub resync : ℕ
resync = 0

-- What `recv` gives within the hold.
pub data Heard : Type 0 where
  changed : ℕ → Heard
  lagged closed elapsed : Heard

-- What was heard, and the rows of `deposits` that a read after it finds.
pub record Wake : Type 0 where
  pub heard : Heard
  pub deposits : List Deposit

-- Whether the loop is left, goes on waiting, or reads again.
pub data Next : Type 0 where
  leave wait read_again : Next

unfoldable pub next_of : ℕ → Heard → Next
next_of id (changed c) = if not (c == id) && not (c == resync) then wait else read_again
next_of id lagged = read_again
next_of id closed = leave
next_of id elapsed = leave

-- The loop of `view`: what is heard before the deadline; with no more of it, the hold runs out.
-- `none` is a deposit that is gone.
unfoldable pub follow : ℕ → ℕ → Deposit → List Wake → Option Deposit
unfolding next_of row
follow id after d [] = some d
follow id after d (w ∷ ws) = elim (next_of id w.heard) [
  | leave ↦ some d
  | wait ↦ follow id after d ws
  | read_again ↦ elim (row id w.deposits) [
    | none ↦ none
    | some e ↦ elim (ltb after e.event_seq) [ true ↦ some e | false ↦ follow id after e ws ]
  ]
]

-- The first read, then the loop where the client asked for news and has what there is.
unfoldable pub awaited : ℕ → Option ℤ → ℕ → List Deposit → List Wake → Option Deposit
unfolding row follow
awaited id (some (pos after)) hold deposits wakes = elim (row id deposits) [
  | none ↦ none
  | some d ↦ elim (ltb 0 hold && leb d.event_seq after) [
    | true ↦ follow id after d wakes
    | false ↦ some d
  ]
]
awaited id other hold deposits wakes = row id deposits

unfoldable pub answer : ℕ → List DepositEvent → Option Deposit → Option PayerView
unfolding events_through new_view
answer id timeline none = none
answer id timeline (some d) = some (new_view d (events_through id d.event_seq timeline))

-- `view`, where the events are read from a last timeline.
unfoldable pub view :
    ℕ → Option ℤ → Option ℤ → ℕ → List Deposit → List Wake → List DepositEvent → Option PayerView
unfolding hold_for awaited answer
view id after wait_secs request_timeout deposits wakes timeline =
    answer id timeline (awaited id after (hold_for wait_secs request_timeout) deposits wakes)
