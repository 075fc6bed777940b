-- ===== src/Relay/Steps.antt =====
-- src/deposit/relay.rs, `check_step` and `is_approval`: what each transaction of a route may do.
use gum_server.Prelude.{
  ℕ, ◌-◌, ◌^◌, String, Bool, false, ◌&&◌, not, Option, none, some, List, [], ◌∷◌, append, ◌==◌,
  str_eq, leb, if◌then◌else◌, length, unwrap_or,
}
use gum_server.Prelude.Json.{Value, null, string, get_value}
use gum_server.Prelude.Ascii.{trim, lower, after_0x}
use gum_server.Prelude.Text.{hex_address}
use gum_server.Relay.{Expected, has_address, is_relay, may_hold_allowance}
use gum_server.Prelude.Refusals.{Checked, ok, refuse, ◌>>=◌, ◌>>◌, ensure, or_refuse}
use gum_server.Relay.Spend.{Spend, grant, transfer}
use gum_server.Relay.Selectors.{
  TokenCall, approve_call, token_call, split_selector, bytes_eq, approve_selector,
}
use gum_server.Relay.Nested.{word_from, is_other_call, check_relay_call}
use gum_server.Relay.Terms.{Parsers, as_u64, text_of, same_address, base_units}
use gum_server.Relay.Quote.{
  Progress, QuoteStep, RouteStep, Transaction, calldata_text, target_of, selector_of,
}

module _ (px : Parsers) where
  -- `data.value`: nothing and null are 0.
  unfoldable pub value_text : Option Value → Checked String
  unfolding base_units trim
  value_text none = ok "0"
  value_text (some null) = ok "0"
  value_text (some (string s)) = do
    n ← or_refuse (base_units px (some s)) "a step has a value which is no number"
    ok (trim s)
  value_text (some other) = refuse "a step has a value which is no text"

  -- `base_units(Some(&value)).unwrap_or(U256::MAX)`
  unfoldable pub value_wei : String → ℕ
  unfolding base_units
  value_wei value = unwrap_or (base_units px (some value)) (2 ^ 256 - 1)

module _ (px : Parsers) (want : Expected) where
  unfoldable pub read_step : Value → Checked Transaction
  unfolding get_value text_of same_address calldata_text value_text
  read_step item = do
    ensure (unwrap_or (as_u64 (get_value "chainId" item)) 0 == want.origin_chain_id)
        "a step runs on another chain than the origin"
    ensure (same_address px (text_of "from" item) want.user)
        "a step is sent from another than the payer"
    to ← or_refuse (px.address (text_of "to" item)) "a step has no valid target"
    hex ← or_refuse (calldata_text (text_of "data" item)) "a step has malformed calldata"
    bytes ← or_refuse (px.bytes hex) "a step has malformed calldata"
    value ← value_text px (get_value "value" item)
    ok (record { to = to; bytes = bytes; value = value })

  -- The effect of an accepted call on the payer's token.
  unfoldable pub check_token_call : TokenCall → ℕ → ℕ → Spend → Checked Spend
  unfolding may_hold_allowance grant transfer
  check_token_call approve_call target amount spend = do
    ensure (may_hold_allowance want.relay_roles target)
        "a step approves an address which may not hold an allowance"
    ok (grant target amount spend)
  check_token_call other target amount spend = do
    ensure (has_address target want.relay_roles.depositories)
        "a step transfers to an address which is not Relay's depository"
    transfer amount spend

  abbrev is_token : ℕ → Bool
  is_token to = not (want.origin_currency == 0) && to == want.origin_currency

  unfoldable pub check_token_step : List ℕ → ℕ → Spend → Checked Spend
  unfolding split_selector token_call check_token_call
  check_token_step bytes input_amount spend = do
    parts ← or_refuse (split_selector bytes) "a step calls the token with no selector"
    ensure (not (is_other_call (token_call parts.0)) && leb 64 (length parts.1))
        "a step makes an unexpected call on the payer's token"
    ensure (leb (word_from 32 64 parts.1) input_amount)
        "a step approves or transfers more than the quoted"
    check_token_call (token_call parts.0) (word_from 12 32 parts.1) (word_from 32 64 parts.1) spend

  unfoldable pub check_relay_step : Transaction → ℕ → Spend → Checked Spend
  unfolding check_relay_call
  check_relay_step t input_amount spend = do
    spent ←
        check_relay_call (record { to = t.to; calldata = t.bytes; value = value_wei px t.value })
          (record { want = want; input_amount = input_amount; depth = 0 }) (some spend)
    ok (unwrap_or spent spend)

  unfoldable pub check_transaction : Transaction → ℕ → Spend → Checked Spend
  unfolding check_token_step check_relay_step is_relay
  check_transaction t input_amount spend =
      if is_token t.to
      then check_token_step t.bytes input_amount spend
      else if is_relay want.relay_roles t.to
      then check_relay_step t input_amount spend
      else refuse
          "a step calls an address which is not one of Relay's contracts on the origin chain"

  unfoldable pub route_step : QuoteStep → Value → Transaction → RouteStep
  unfolding text_of lower
  route_step step item t = record {
    id = step.id;
    description = step.description;
    chain_id = want.origin_chain_id;
    to = hex_address t.to;
    calldata = lower (text_of "data" item);
    value = t.value;
  }

  -- `check_step`
  unfoldable pub check_step : QuoteStep → Value → ℕ → Spend → Checked (RouteStep × Spend)
  unfolding read_step check_transaction route_step
  check_step step item input_amount spend = do
    t ← read_step item
    spend' ← check_transaction t input_amount spend
    ok (route_step step item t, spend')

  -- The selector is decoded from the first eight characters behind "0x". `check_step` has accepted
  -- the text before, so that its characters are its bytes.
  unfoldable pub is_approval : Value → Bool
  unfolding get_value after_0x
  is_approval item = if want.origin_currency == 0 then false else elim (target_of px item) [
    | none ↦ false
    | some to ↦ elim (selector_of px item) [
      | none ↦ false
      | some selector ↦ to == want.origin_currency && bytes_eq selector approve_selector
    ]
  ]

  -- The loops over the steps and their items: whether the payment is funded, and what is accepted.
  unfoldable pub check_items : QuoteStep → ℕ → List Value → Progress → Checked Progress
  unfolding check_step is_approval
  check_items step input_amount [] p = ok p
  check_items step input_amount (item ∷ items) p = do
    ensure (not p.funded) "a step comes after the payment is funded"
    accepted ← check_step step item input_amount p.spend
    check_items step input_amount items (record {
      funded = not (is_approval item);
      steps = append p.steps (accepted.0 ∷ []);
      spend = accepted.1;
    })

  unfoldable pub check_steps : ℕ → List QuoteStep → Progress → Checked Progress
  unfolding check_items
  check_steps input_amount [] p = ok p
  check_steps input_amount (step ∷ steps) p = do
    ensure (str_eq step.kind "transaction") "a step is no transaction"
    p' ← check_items step input_amount step.items p
    check_steps input_amount steps p'
