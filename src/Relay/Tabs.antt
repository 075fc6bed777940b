-- ===== src/Relay/Tabs.antt =====
-- src/deposit/relay.rs, `check_step` and `check_quote`: the tab of a route is that of the actions of its
-- transactions, and so bounds what can leave the wallet.
use gum_server.Prelude.{
  ℕ, ◌≡◌, refl, ap, ◌∙◌, false, ◌&&◌, not, none, some, List, [], ◌∷◌, append, ◌==◌, leb,
  if◌then◌else◌, length, arith, inl, inr, unwrap_or, str_eq,
}
use gum_server.Prelude.Json.{Value}
use gum_server.Relay.{Expected, is_relay}
use gum_server.Prelude.Refusals.{
  Checked, ok, refuse, >>=-ok, ensure-ok, or_refuse->>=-ok, if-ok, refuse-ok,
}
use gum_server.Relay.Spend.{Spend, transfer}
use gum_server.Relay.Selectors.{
  TokenCall, approve_call, transfer_call, other_call, token_call, split_selector,
}
use gum_server.Relay.Nested.{
  word_from, is_other_call, check_relay_call, check_nested_call, nesting_fuel,
}
use gum_server.Relay.Entrypoints.{WalletCall, Route, check_calls, relay_call}
use gum_server.Relay.Terms.{Parsers}
use gum_server.Relay.Quote.{QuoteStep, RouteStep, Progress, Transaction}
use gum_server.Relay.Steps.{
  value_wei, read_step, check_token_call, check_token_step, check_relay_step, check_transaction,
  check_step, check_items, check_steps,
}
use gum_server.Relay.Wallet.{Action, approve, send}
use gum_server.Relay.Tally.{tally, tally_all}
use gum_server.Relay.Actions.{relay_actions, relay_with-tally}

abbrev pub token_action : TokenCall → ℕ → ℕ → List Action
token_action approve_call target amount = approve target amount ∷ []
token_action transfer_call target amount = send amount ∷ []
token_action other_call target amount = []

-- `approve` and `transfer` on the payer's token.
unfoldable pub token_actions : List ℕ → List Action
unfolding split_selector token_call
token_actions bytes = elim (split_selector bytes) [
  | none ↦ []
  | some (selector, args) ↦
      token_action (token_call selector) (word_from 12 32 args) (word_from 32 64 args)
]

module _ (px : Parsers) (want : Expected) where
  unfoldable pub transaction_actions : Transaction → List Action
  unfolding token_actions relay_actions
  transaction_actions t =
      if not (want.origin_currency == 0) && t.to == want.origin_currency
      then token_actions t.bytes
      else relay_actions t.to t.bytes

  token_call-tally :
      (c : TokenCall) (target amount : ℕ) (s s' : Spend)
      → is_other_call c ≡ false
      → check_token_call px want c target amount s ≡ ok s'
      → s' ≡ tally_all (token_action c target amount) s
  unfolding check_token_call transfer
  token_call-tally approve_call target amount s s' n h = ground arith
  token_call-tally transfer_call target amount s s' n h = ground arith
  token_call-tally other_call target amount s s' n h = ground arith

  token_step-tally :
      (bytes : List ℕ) (input_amount : ℕ) (s s' : Spend)
      → check_token_step px want bytes input_amount s ≡ ok s'
      → s' ≡ tally_all (token_actions bytes) s
  unfolding check_token_step token_actions
  token_step-tally bytes input_amount s s' h =
      let (parts, e, h1) = or_refuse->>=-ok (split_selector bytes) _ _ h in
      let (e2, h2) =
        ensure-ok (not (is_other_call (token_call parts.0)) && leb 64 (length parts.1)) _ _ h1 in
      let (e3, h3) = ensure-ok (leb (word_from 32 64 parts.1) input_amount) _ _ h2 in
      rw (e, token_actions)
        (token_call-tally (token_call parts.0) (word_from 12 32 parts.1) (word_from 32 64 parts.1) s
          s' (ground arith) h3)

  relay_step-tally :
      (t : Transaction) (input_amount : ℕ) (s s' : Spend)
      → check_relay_step px want t input_amount s ≡ ok s'
      → s' ≡ tally_all (relay_actions t.to t.bytes) s
  unfolding check_relay_step check_relay_call relay_call
  relay_step-tally t input_amount s s' h =
      let call : WalletCall = record {
        to = t.to;
        calldata = t.bytes;
        value = value_wei px t.value;
      } in
      let route : Route = record { want = want; input_amount = input_amount; depth = 0 } in
      let (spent, e, h1) = >>=-ok (check_relay_call call route (some s)) _ h in
      let r =
        relay_with-tally (check_calls (check_nested_call nesting_fuel) call.value route) call route
          (some s) spent e in
      cc (h1, ap (λ x. unwrap_or x s) r)

  transaction-tally :
      (t : Transaction) (input_amount : ℕ) (s s' : Spend)
      → check_transaction px want t input_amount s ≡ ok s'
      → s' ≡ tally_all (transaction_actions t) s
  unfolding check_transaction transaction_actions
  transaction-tally t input_amount s s' h =
      elim (if-ok (not (want.origin_currency == 0) && t.to == want.origin_currency) _ _ h) [
        | inl (e, h1) ↦ rw (e, transaction_actions) (token_step-tally t.bytes input_amount s s' h1)
        | inr (e, h1) ↦ elim (if-ok (is_relay want.relay_roles t.to) _ _ h1) [
          | inl (e2, h2) ↦ rw (e, transaction_actions) (relay_step-tally t input_amount s s' h2)
          | inr (e2, h2) ↦ refuse-ok h2
        ]
      ]

  abbrev read_actions : Checked Transaction → List Action
  read_actions (ok t) = transaction_actions t
  read_actions (refuse e) = []

  -- The actions of one transaction of a quote, of a step's and of all steps'.
  unfoldable pub item_actions : Value → List Action
  unfolding read_step transaction_actions
  item_actions item = read_actions (read_step px want item)

  abbrev pub items_actions : List Value → List Action
  items_actions [] = []
  items_actions (item ∷ items) = append (item_actions item) (items_actions items)

  abbrev pub steps_actions : List QuoteStep → List Action
  steps_actions [] = []
  steps_actions (step ∷ steps) = append (items_actions step.items) (steps_actions steps)

  step-tally :
      (step : QuoteStep) (item : Value) (input_amount : ℕ) (s : Spend) {r : RouteStep × Spend}
      → check_step px want step item input_amount s ≡ ok r
      → r.1 ≡ tally_all (item_actions item) s
  unfolding check_step item_actions
  step-tally step item input_amount s {r} h =
      let (t, e, h1) = >>=-ok (read_step px want item) _ h in
      let (s', e2, h2) = >>=-ok (check_transaction px want t input_amount s) _ h1 in
      cc (h2, transaction-tally t input_amount s s' e2, ap (λ x. tally_all (read_actions x) s) e)

  tally_append :
      (acts bs : List Action) (s : Spend)
      → tally_all bs (tally_all acts s) ≡ tally_all (append acts bs) s
  tally_append [] bs s = refl
  tally_append (a ∷ acts) bs s = tally_append acts bs (tally a s)

  items-tally :
      (step : QuoteStep) (input_amount : ℕ) (items : List Value) (p p' : Progress)
      → check_items px want step input_amount items p ≡ ok p'
      → p'.spend ≡ tally_all (items_actions items) p.spend
  unfolding check_items
  items-tally step input_amount [] p p' h = cc h
  items-tally step input_amount (item ∷ items) p p' h =
      let (e1, h1) = ensure-ok (not p.funded) _ _ h in
      let (r, e2, h2) = >>=-ok (check_step px want step item input_amount p.spend) _ h1 in
      let ih = items-tally step input_amount items _ p' h2 in
      ih
      ∙ ap (tally_all (items_actions items)) (step-tally step item input_amount p.spend e2)
      ∙ tally_append (item_actions item) (items_actions items) p.spend

  -- The tab of the steps accepted is that of their actions.
  pub steps-tally :
      (input_amount : ℕ) (steps : List QuoteStep) (p p' : Progress)
      → check_steps px want input_amount steps p ≡ ok p'
      → p'.spend ≡ tally_all (steps_actions steps) p.spend
  unfolding check_steps
  steps-tally input_amount [] p p' h = cc h
  steps-tally input_amount (step ∷ steps) p p' h =
      let (e1, h1) = ensure-ok (str_eq step.kind "transaction") _ _ h in
      let (q, e2, h2) = >>=-ok (check_items px want step input_amount step.items p) _ h1 in
      steps-tally input_amount steps q p' h2
      ∙ ap (tally_all (steps_actions steps)) (items-tally step input_amount step.items p q e2)
      ∙ tally_append (items_actions step.items) (steps_actions steps) p.spend
