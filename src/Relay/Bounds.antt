-- ===== src/Relay/Bounds.antt =====
-- src/deposit/relay.rs, `check_quote`: what an accepted quote can cost the payer, and what it delivers.
use gum_server.Prelude.{
  ℕ, ◌+◌, ◌≤◌, ◌≡◌, sym, ap, ◌∙◌, true, ◌&&◌, not, some, List, [], ◌∷◌, map, ◌==◌, ltb,
  if◌then◌else◌, arith,
}
use gum_server.Prelude.Json.{Value}
use gum_server.Relay.{Expected}
use gum_server.Prelude.Refusals.{
  ok, checked_add, sum, ensure-ok, or_refuse->>=-ok, or_refuse-ok, checked_add-ok,
}
use gum_server.Relay.Spend.{exposure}
use gum_server.Relay.Wallet.{fresh, perform_all, drawn}
use gum_server.Relay.Tally.{exposure-bound}
use gum_server.Relay.Terms.{Parsers, same_address, base_units}
use gum_server.Relay.Quote.{Quote, QuoteDetails, RouteStep, RouteQuote, no_progress, order_data}
use gum_server.Relay.Steps.{value_wei}
use gum_server.Relay.Checks.{check_route, total_value, check_details, check_quote}
use gum_server.Relay.Tabs.{steps_actions, steps-tally}
use gum_server.Relay.Honoured.{Honours, check_order-Honours}
use gum_server.Relay.Accepted.{check_route-RouteOk, check_quote-QuoteOk}

total_value-sum :
    (px : Parsers) (steps : List RouteStep) (n : ℕ) {v : ℕ}
    → total_value px steps n ≡ ok v
    → v ≡ n + sum (map (λ s. value_wei px s.value) steps)
unfolding total_value
total_value-sum px [] n h = ground arith
total_value-sum px (s ∷ steps) n h =
    let (n', e, h1) = or_refuse->>=-ok (checked_add n (value_wei px s.value)) _ _ h in
    omega (arith, total_value-sum px steps n' h1, checked_add-ok n (value_wei px s.value) e)

module _ (px : Parsers) (want : Expected) where
  -- The payer is the sender, the payment address the recipient; the quote pays at least the amount in
  -- the deposit's token on its chain, and takes what the payer chose.
  pub record Details (d : QuoteDetails) (input_amount : ℕ) : Type 0 where
    pub sender : same_address px d.sender want.user ≡ true
    pub recipient : same_address px d.recipient want.recipient ≡ true
    pub out_chain : d.currency_out.currency.chain_id ≡ want.destination_chain_id
    pub out_token : same_address px d.currency_out.currency.address want.token ≡ true
    pub out_decimals : d.currency_out.currency.decimals ≡ want.token_decimals
    pub guaranteed : ℕ
    pub guarantee : base_units px d.currency_out.minimum_amount ≡ some guaranteed
    pub enough : want.amount ≤ guaranteed
    pub in_chain : d.currency_in.currency.chain_id ≡ want.origin_chain_id
    pub in_token : same_address px d.currency_in.currency.address want.origin_currency ≡ true
    pub in_decimals : d.currency_in.currency.decimals ≡ want.origin_decimals
    pub input : base_units px (some d.currency_in.amount) ≡ some input_amount

  check_details-Details : (d : QuoteDetails) (n : ℕ) → check_details px want d ≡ ok n → Details d n
  unfolding check_details
  check_details-Details d n h =
      let (e1, h1) = ensure-ok (same_address px d.sender want.user) _ _ h in
      let (e2, h2) = ensure-ok (same_address px d.recipient want.recipient) _ _ h1 in
      let (e3, h3) =
        ensure-ok
          (d.currency_out.currency.chain_id == want.destination_chain_id
            && same_address px d.currency_out.currency.address want.token)
          _ _ h2 in
      let (e4, h4) = ensure-ok (d.currency_out.currency.decimals == want.token_decimals) _ _ h3 in
      let (g, e5, h5) = or_refuse->>=-ok (base_units px d.currency_out.minimum_amount) _ _ h4 in
      let (e6, h6) = ensure-ok (not (ltb g want.amount)) _ _ h5 in
      let (e7, h7) =
        ensure-ok
          (d.currency_in.currency.chain_id == want.origin_chain_id
            && same_address px d.currency_in.currency.address want.origin_currency)
          _ _ h6 in
      let (e8, h8) = ensure-ok (d.currency_in.currency.decimals == want.origin_decimals) _ _ h7 in
      record {
        sender = e1;
        recipient = e2;
        out_chain = ground (arith, e3);
        out_token = ground (arith, e3);
        out_decimals = ground (arith, e4);
        guaranteed = g;
        guarantee = e5;
        enough = ground (arith, e6);
        in_chain = ground (arith, e7);
        in_token = ground (arith, e7);
        in_decimals = ground (arith, e8);
        input = or_refuse-ok (base_units px (some d.currency_in.amount)) _ h8;
      }

  -- The input amount that the route is held against is the quote's.
  pub check_quote-input :
      (quote : Quote) (r : RouteQuote)
      → check_quote px want quote ≡ ok r
      → (input_amount : ℕ) × (base_units px (some quote.details.currency_in.amount)
          ≡ some input_amount)
        × (check_route px want quote input_amount ≡ ok r.steps)
  check_quote-input quote r h =
      let q = check_quote-QuoteOk px want quote r h in
      let d = check_details-Details quote.details q.input_amount q.details_ok in
      (q.input_amount, d.input, q.route_ok)

  -- What an accepted quote costs at most: nothing but the quoted input amount leaves a wallet that
  -- granted no allowance before, in the token that it pays with, neither by the route's transactions nor
  -- by whatever draws on the route's allowances follow; and the value that the accepted steps send is at
  -- most the input for the native currency, and none for a token.
  pub check_quote-bound :
      (quote : Quote) (r : RouteQuote) (draws : List (ℕ × ℕ))
      → check_quote px want quote ≡ ok r
      → (input_amount : ℕ) × (base_units px (some quote.details.currency_in.amount)
          ≡ some input_amount)
        × ((drawn draws (perform_all (steps_actions px want quote.steps) fresh)).moved
            ≤ input_amount)
        × (sum (map (λ s. value_wei px s.value) r.steps)
            ≤ (if want.origin_currency == 0 then input_amount else 0))
  check_quote-bound quote r draws h =
      let q = check_quote-QuoteOk px want quote r h in
      let c = check_route-RouteOk px want quote q.input_amount r.steps q.route_ok in
      let d = check_details-Details quote.details q.input_amount q.details_ok in
      let tab =
        steps-tally px want q.input_amount quote.steps no_progress c.progress c.progress_ok in
      let bound =
        exposure-bound (steps_actions px want quote.steps) draws
          (sym (ap exposure tab) ∙ c.taken_ok) in
      let value = total_value-sum px c.progress.steps 0 c.value_ok in
      let values = ap (λ steps. sum (map (λ s. value_wei px s.value) steps)) c.steps_eq in
      (
        q.input_amount,
        d.input,
        omega (arith, bound, c.taken_le),
        omega (arith, value, values, c.value_le),
      )

  -- What an accepted quote delivers: its details are the terms, and it carries a signed order that
  -- honours them for the quoted input amount.
  pub check_quote-Honours :
      (quote : Quote) (r : RouteQuote)
      → check_quote px want quote ≡ ok r
      → (input_amount : ℕ) × Details quote.details input_amount
        × (order : Value) × (order_data quote.protocol ≡ some order)
        × Honours px want input_amount order
  check_quote-Honours quote r h =
      let q = check_quote-QuoteOk px want quote r h in
      (
        q.input_amount,
        check_details-Details quote.details q.input_amount q.details_ok,
        q.order,
        q.order_found,
        check_order-Honours px want q.order q.input_amount q.order_ok,
      )
