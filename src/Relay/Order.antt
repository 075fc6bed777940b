-- ===== src/Relay/Order.antt =====
-- src/deposit/relay.rs, `check_order`: the order that the solver signs, held against the terms.
use gum_server.Prelude.{ℕ, Bool, ◌&&◌, ◌||◌, not, Option, List, [], ◌∷◌, ◌==◌, ltb, length}
use gum_server.Prelude.Json.{Value, get_value}
use gum_server.Relay.{Expected}
use gum_server.Prelude.Refusals.{Checked, ok, ◌>>=◌, ◌>>◌, ensure, or_refuse, checked_add}
use gum_server.Relay.Terms.{
  Parsers, str_of, as_array, as_object, text_of, same_address, base_units, is_chain,
}

module _ (px : Parsers) (want : Expected) where
  unfoldable pub minimum : Value → Option ℕ
  unfolding get_value base_units
  minimum p = base_units px (str_of (get_value "minimumAmount" p))

  -- The recipient and the currency of a payment.
  unfoldable pub pays_recipient : Value → Bool
  unfolding text_of same_address
  pays_recipient p =
      same_address px (text_of "recipient" p) want.recipient
      && same_address px (text_of "currency" p) want.token

  -- The loop over the payments, after `total` of those so far.
  unfoldable pub check_payments : List Value → ℕ → Checked ℕ
  unfolding pays_recipient minimum
  check_payments [] total = ok total
  check_payments (p ∷ ps) total = do
    ensure (pays_recipient p) "the order pays another than the payment address"
    least ← or_refuse (minimum p) "a payment of the signed order has no minimumAmount"
    total' ← or_refuse (checked_add total least) "the signed order's payments overflow"
    check_payments ps total'

  -- `(on_origin && to_payer) || (on_destination && to_deposit)`
  unfoldable pub refunds_home : Value → Bool
  unfolding text_of same_address is_chain get_value
  refunds_home r =
      is_chain (get_value "chainId" r) want.origin_chain_id want.origin_chain_names
        && (same_address px (text_of "recipient" r) want.user
            && same_address px (text_of "currency" r) want.origin_currency)
      || is_chain (get_value "chainId" r) want.destination_chain_id want.destination_chain_names
        && (same_address px (text_of "recipient" r) want.recipient
            && same_address px (text_of "currency" r) want.token)

  unfoldable pub check_refunds : List Value → Checked (Unit {0})
  unfolding refunds_home
  check_refunds [] = ok tt
  check_refunds (r ∷ rs) = do
    ensure (refunds_home r) "the order refunds neither to the payer nor to this payment"
    check_refunds rs

  unfoldable pub input_payment : Value → Option Value
  unfolding get_value
  input_payment input = as_object (get_value "payment" input)

  -- One input of the order: what it takes.
  unfoldable pub check_input : Value → ℕ → Checked ℕ
  unfolding input_payment text_of same_address is_chain get_value base_units check_refunds
  check_input input taken = do
    payment ← or_refuse (input_payment input) "an input of the signed order has no payment"
    ensure (same_address px (text_of "currency" payment) want.origin_currency)
        "the order takes a currency which is not what the payer chose"
    ensure (is_chain (get_value "chainId" payment) want.origin_chain_id want.origin_chain_names)
        "the order takes the currency on another chain"
    amount ←
        or_refuse (base_units px (str_of (get_value "amount" payment)))
          "an input of the signed order has no amount"
    taken' ← or_refuse (checked_add taken amount) "the signed order's inputs overflow"
    refunds ←
        or_refuse (as_array (get_value "refunds" input))
          "an input of the signed order has no refunds"
    ensure (not (length refunds == 0)) "an input of the signed order has nowhere its refunds go"
    check_refunds refunds
    ok taken'

  -- The loop over the inputs, after `taken` of those so far.
  unfoldable pub check_inputs : List Value → ℕ → Checked ℕ
  unfolding check_input
  check_inputs [] taken = ok taken
  check_inputs (i ∷ is) taken = do taken' ← check_input i taken; check_inputs is taken'

  unfoldable pub check_order : Value → ℕ → Checked (Unit {0})
  unfolding get_value is_chain check_payments check_inputs
  check_order order input_amount = do
    output ← or_refuse (get_value "output" order) "the signed order has no output"
    payments ←
        or_refuse (as_array (get_value "payments" output))
          "the signed order has no payments to check"
    ensure (not (length payments == 0)) "the signed order pays nothing"
    ensure
        (is_chain (get_value "chainId" output) want.destination_chain_id
          want.destination_chain_names)
        "the signed order settles on another chain"
    total ← check_payments payments 0
    ensure (not (ltb total want.amount)) "the order guarantees less than the amount"
    inputs ← or_refuse (as_array (get_value "inputs" order)) "the signed order has no inputs"
    ensure (not (length inputs == 0)) "the signed order takes nothing"
    taken ← check_inputs inputs 0
    ensure (taken == input_amount) "the order takes another amount than the quoted"
