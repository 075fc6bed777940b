-- ===== src/Relay/Checks.antt =====
-- src/deposit/relay.rs, `check_quote`: the quote held against the terms.
use gum_server.Prelude.{ℕ, ◌&&◌, not, some, List, [], ◌∷◌, ◌==◌, leb, ltb, if◌then◌else◌, unwrap_or}
use gum_server.Prelude.Ascii.{lower}
use gum_server.Prelude.Text.{decimal}
use gum_server.Relay.{Expected}
use gum_server.Prelude.Refusals.{Checked, ok, ◌>>=◌, ◌>>◌, ensure, or_refuse, checked_add}
use gum_server.Relay.Spend.{exposure}
use gum_server.Relay.Terms.{Parsers, same_address, base_units}
use gum_server.Relay.Order.{check_order}
use gum_server.Relay.Quote.{
  Quote, QuoteDetails, RouteQuote, RouteStep, is_hash, no_progress, order_data, route_amount,
}
use gum_server.Relay.Steps.{value_wei, check_steps}

module _ (px : Parsers) where
  -- The native value of the route's steps, after `value` of those so far.
  unfoldable pub total_value : List RouteStep → ℕ → Checked ℕ
  unfolding value_wei
  total_value [] value = ok value
  total_value (s ∷ steps) value = do
    value' ←
        or_refuse (checked_add value (value_wei px s.value)) "the route's native value overflows"
    total_value steps value'

module _ (px : Parsers) (want : Expected) where
  unfoldable pub check_details : QuoteDetails → Checked ℕ
  unfolding same_address base_units
  check_details d = do
    ensure (same_address px d.sender want.user) "the sender is not the payer"
    ensure (same_address px d.recipient want.recipient) "the recipient is not the payment address"
    ensure
        (d.currency_out.currency.chain_id == want.destination_chain_id
          && same_address px d.currency_out.currency.address want.token)
        "pays another than the deposit's token"
    ensure (d.currency_out.currency.decimals == want.token_decimals)
        "pays in other decimals than the deposit token's"
    guaranteed ←
        or_refuse (base_units px d.currency_out.minimum_amount)
          "guarantees what is no number of base units"
    ensure (not (ltb guaranteed want.amount)) "guarantees less than the amount"
    ensure
        (d.currency_in.currency.chain_id == want.origin_chain_id
          && same_address px d.currency_in.currency.address want.origin_currency)
        "takes another than what the payer chose"
    ensure (d.currency_in.currency.decimals == want.origin_decimals)
        "takes other decimals than Relay lists"
    or_refuse (base_units px (some d.currency_in.amount)) "the input amount is not base units"

  -- The steps of the quote, its value and what it takes, held against the quoted input.
  unfoldable pub check_route : Quote → ℕ → Checked (List RouteStep)
  unfolding check_steps total_value exposure
  check_route quote input_amount = do
    p ← check_steps px want input_amount quote.steps no_progress
    ensure p.funded "no steps to execute"
    value ← total_value px p.steps 0
    ensure (leb value (if want.origin_currency == 0 then input_amount else 0))
        "the steps send more value than the quote takes"
    taken ← exposure p.spend
    ensure (leb taken input_amount) "the steps take more from the wallet than the quote is for"
    ok p.steps

  unfoldable pub check_quote : Quote → Checked RouteQuote
  unfolding is_hash check_details order_data check_order check_route route_amount lower
  check_quote quote = do
    ensure (is_hash (unwrap_or quote.request_id "")) "the request id is not a 32-byte hex id"
    input_amount ← check_details quote.details
    order ← or_refuse (order_data quote.protocol) "no signed order (protocol.v2.orderData) to check"
    check_order px want order input_amount
    steps ← check_route quote input_amount
    ok (record {
      request_id = lower (unwrap_or quote.request_id "");
      origin = route_amount quote.details.currency_in;
      destination = record (route_amount quote.details.currency_out) {
        amount = decimal want.amount;
      };
      steps = steps;
    })
