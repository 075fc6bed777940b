-- ===== src/Relay/Quote.antt =====
-- src/clients/relay.rs, `Quote`, and src/deposit/relay.rs: the quote, and how its steps are read.
-- Left out: the members that are only shown (fees, rates, time, logos) or never read.
use gum_server.Prelude.{
  append, ◌∷◌, ℕ, zero, suc, ◌%◌, String, Bool, false, ◌&&◌, Option, none, some, List, [], ◌==◌,
  if◌then◌else◌, length,
}
use gum_server.Prelude.Json.{Value, get_value}
use gum_server.Prelude.Ascii.{codes, lower, all_hex, after_0x}
use gum_server.Relay.Spend.{Spend, no_spend}
use gum_server.Relay.Terms.{Parsers, str_of, as_object}

pub record QuoteCurrency : Type 0 where
  pub chain_id : ℕ
  pub address : String
  pub symbol : String
  pub name : String
  pub decimals : ℕ

pub record QuoteAmount : Type 0 where
  pub currency : QuoteCurrency
  pub amount : String
  pub amount_usd : Option String
  pub minimum_amount : Option String

pub record QuoteDetails : Type 0 where
  pub sender : String
  pub recipient : String
  pub currency_in : QuoteAmount
  pub currency_out : QuoteAmount

-- The items of a step by their `data`.
pub record QuoteStep : Type 0 where
  pub id : String
  pub description : String
  pub kind : String
  pub items : List Value

-- The items of all steps, in order.
abbrev pub all_items : List QuoteStep → List Value
all_items [] = []
all_items (step ∷ steps) = append step.items (all_items steps)

pub record Quote : Type 0 where
  pub request_id : Option String
  pub steps : List QuoteStep
  pub details : QuoteDetails
  pub protocol : Option Value

pub record RouteStep : Type 0 where
  pub id : String
  pub description : String
  pub chain_id : ℕ
  pub to : String
  pub calldata : String
  pub value : String

pub record RouteAmount : Type 0 where
  pub chain_id : ℕ
  pub address : String
  pub symbol : String
  pub name : String
  pub decimals : ℕ
  pub amount : String
  pub amount_usd : Option String

pub record RouteQuote : Type 0 where
  pub request_id : String
  pub origin : RouteAmount
  pub destination : RouteAmount
  pub steps : List RouteStep

-- `len() == 66`, "0x" and hexadecimal digits
unfoldable pub is_hash : String → Bool
unfolding after_0x
is_hash raw = elim (after_0x raw) [
  | none ↦ false
  | some s ↦ length (codes s) == 64 && all_hex (codes s)
]

unfoldable pub route_amount : QuoteAmount → RouteAmount
unfolding lower
route_amount a = record {
  chain_id = a.currency.chain_id;
  address = lower a.currency.address;
  symbol = a.currency.symbol;
  name = a.currency.name;
  decimals = a.currency.decimals;
  amount = a.amount;
  amount_usd = a.amount_usd;
}

-- What is decoded of a step's transaction: the target, the calldata and the value as text.
pub record Transaction : Type 0 where
  pub to : ℕ
  pub bytes : List ℕ
  pub value : String

-- The text behind "0x", where it is of hexadecimal digits and their number is even.
unfoldable pub calldata_text : String → Option String
unfolding after_0x
calldata_text s = elim (after_0x s) [
  | none ↦ none
  | some hex ↦ if length (codes hex) % 2 == 0 && all_hex (codes hex) then some hex else none
]

-- `protocol.pointer("/v2/orderData")`, an object
unfoldable pub order_data : Option Value → Option Value
unfolding get_value
order_data none = none
order_data (some p) = elim (get_value "v2" p) [
  | none ↦ none
  | some v ↦ as_object (get_value "orderData" v)
]

-- The first `n` characters.
abbrev pub prefix : ℕ → String → Option String
prefix zero s = some ""
prefix (suc n) String.[] = none
prefix (suc n) (String.◌∷◌ c s) = elim (prefix n s) [ none ↦ none | some t ↦ some (String.◌∷◌ c t) ]

-- The payment is funded, the steps accepted so far, and what they spend.
pub record Progress : Type 0 where
  pub funded : Bool
  pub steps : List RouteStep
  pub spend : Spend

abbrev pub no_progress : Progress
no_progress = record { funded = false; steps = []; spend = no_spend }

module _ (px : Parsers) where
  abbrev pub target_of : Value → Option ℕ
  target_of item = elim (str_of (get_value "to" item)) [ none ↦ none | some s ↦ px.address s ]

  abbrev pub selector_of : Value → Option (List ℕ)
  selector_of item = elim (str_of (get_value "data" item)) [
    | none ↦ none
    | some s ↦ elim (after_0x s) [
      | none ↦ none
      | some hex ↦ elim (prefix 8 hex) [ none ↦ none | some t ↦ px.bytes t ]
    ]
  ]
