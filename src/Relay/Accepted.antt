-- ===== src/Relay/Accepted.antt =====
-- src/deposit/relay.rs, `check_quote`: what is known of a quote that is accepted.
use gum_server.Prelude.{ℕ, ◌≤◌, ◌≡◌, true, some, List, ◌==◌, leb, if◌then◌else◌, arith, unwrap_or}
use gum_server.Prelude.Json.{Value}
use gum_server.Relay.{Expected}
use gum_server.Prelude.Refusals.{ok, >>=-ok, ensure-ok, or_refuse->>=-ok}
use gum_server.Relay.Spend.{exposure}
use gum_server.Relay.Terms.{Parsers}
use gum_server.Relay.Order.{check_order}
use gum_server.Relay.Quote.{
  Quote, RouteStep, RouteQuote, Progress, no_progress, order_data, is_hash,
}
use gum_server.Relay.Steps.{check_steps}
use gum_server.Relay.Checks.{total_value, check_details, check_route, check_quote}

module _ (px : Parsers) (want : Expected) where
  -- The parts of `check_route`.
  pub record RouteOk (quote : Quote) (input_amount : ℕ) (steps : List RouteStep) : Type 0 where
    pub progress : Progress
    pub progress_ok : check_steps px want input_amount quote.steps no_progress ≡ ok progress
    pub is_funded : progress.funded ≡ true
    pub value : ℕ
    pub value_ok : total_value px progress.steps 0 ≡ ok value
    pub value_le : value ≤ (if want.origin_currency == 0 then input_amount else 0)
    pub taken : ℕ
    pub taken_ok : exposure progress.spend ≡ ok taken
    pub taken_le : taken ≤ input_amount
    pub steps_eq : steps ≡ progress.steps

  pub check_route-RouteOk :
      (quote : Quote) (input_amount : ℕ) (steps : List RouteStep)
      → check_route px want quote input_amount ≡ ok steps
      → RouteOk quote input_amount steps
  unfolding check_route
  check_route-RouteOk quote input_amount steps h =
      let (p, e1, h1) = >>=-ok (check_steps px want input_amount quote.steps no_progress) _ h in
      let (e2, h2) = ensure-ok p.funded _ _ h1 in
      let (value, e3, h3) = >>=-ok (total_value px p.steps 0) _ h2 in
      let (e4, h4) =
        ensure-ok (leb value (if want.origin_currency == 0 then input_amount else 0)) _ _ h3 in
      let (taken, e5, h5) = >>=-ok (exposure p.spend) _ h4 in
      let (e6, h6) = ensure-ok (leb taken input_amount) _ _ h5 in
      record {
        progress = p;
        progress_ok = e1;
        is_funded = e2;
        value = value;
        value_ok = e3;
        value_le = ground (arith, e4);
        taken = taken;
        taken_ok = e5;
        taken_le = ground (arith, e6);
        steps_eq = cc h6;
      }

  -- The parts of `check_quote`.
  pub record QuoteOk (quote : Quote) (r : RouteQuote) : Type 0 where
    pub input_amount : ℕ
    pub details_ok : check_details px want quote.details ≡ ok input_amount
    pub order : Value
    pub order_found : order_data quote.protocol ≡ some order
    pub order_ok : check_order px want order input_amount ≡ ok tt
    pub route_ok : check_route px want quote input_amount ≡ ok r.steps

  pub check_quote-QuoteOk :
      (quote : Quote) (r : RouteQuote) → check_quote px want quote ≡ ok r → QuoteOk quote r
  unfolding check_quote
  check_quote-QuoteOk quote r h =
      let (e1, h1) = ensure-ok (is_hash (unwrap_or quote.request_id "")) _ _ h in
      let (input_amount, e2, h2) = >>=-ok (check_details px want quote.details) _ h1 in
      let (order, e3, h3) = or_refuse->>=-ok (order_data quote.protocol) _ _ h2 in
      let (u, e4, h4) = >>=-ok (check_order px want order input_amount) _ h3 in
      let (steps, e5, h5) = >>=-ok (check_route px want quote input_amount) _ h4 in
      record {
        input_amount = input_amount;
        details_ok = e2;
        order = order;
        order_found = e3;
        order_ok = e4;
        route_ok = cc (e5, h5);
      }
