-- ===== src/Relay/Targets.antt =====
-- src/deposit/relay.rs, `check_step`: where the transactions of an accepted route go.
use gum_server.Prelude.{
  ℕ, ◌≤◌, ◌≡◌, ◌⊎◌, inl, inr, Bool, true, false, ◌&&◌, not, Option, some, List, [], ◌∷◌, append,
  ◌==◌, leb, length, arith, str_eq, All,
}
use gum_server.Prelude.Json.{Value}
use gum_server.Relay.{RelayRoles, Expected, has_address, is_relay, may_hold_allowance}
use gum_server.Prelude.Refusals.{ok, >>=-ok, ensure-ok, or_refuse->>=-ok, if-ok, refuse-ok}
use gum_server.Relay.Spend.{Spend}
use gum_server.Relay.Selectors.{
  Entrypoint, deposit_erc20, deposit_erc20_all, deposit_native, multicall, multicall_v2,
  transfer_and_multicall, transfer_and_multicall_v2, forward, undecoded, entrypoint, TokenCall,
  approve_call, transfer_call, other_call, token_call, split_selector,
}
use gum_server.Relay.Entrypoints.{
  WalletCall, Route, CallsCheck, check_role, check_entrypoint, relay_with, check_calls, relay_call,
}
use gum_server.Relay.Nested.{
  word_from, is_other_call, check_relay_call, check_nested_call, nesting_fuel,
}
use gum_server.Relay.Terms.{Parsers}
use gum_server.Relay.Quote.{
  all_items, Quote, QuoteStep, RouteStep, RouteQuote, Progress, no_progress, Transaction,
}
use gum_server.Relay.Steps.{
  value_wei, read_step, check_token_call, check_token_step, check_relay_step, check_transaction,
  check_step, check_items, check_steps,
}
use gum_server.Relay.Checks.{check_quote}
use gum_server.Relay.Accepted.{check_route-RouteOk}
use gum_server.Relay.Bounds.{check_quote-input}
use gum_server.Relay.Terms.{base_units}
use gum_server.Relay.Terms.{text_of, as_u64, same_address}
use gum_server.Prelude.Json.{get_value}
use gum_server.Prelude.{unwrap_or}

-- The role that may take a call to an entrypoint; no address may take one that is not decoded, or the
-- deposit of a whole allowance.
abbrev pub takes_part : RelayRoles → Entrypoint → ℕ → Bool
takes_part roles deposit_erc20 a = has_address a roles.depositories
takes_part roles deposit_native a = has_address a roles.depositories
takes_part roles multicall a = has_address a roles.routers
takes_part roles multicall_v2 a = has_address a roles.routers
takes_part roles transfer_and_multicall a = has_address a roles.approval_proxies
takes_part roles transfer_and_multicall_v2 a = has_address a roles.approval_proxies
takes_part roles forward a = has_address a roles.receivers
takes_part roles other a = false

-- A call on the payer's token: an allowance to who may hold one or a transfer to a depository.
abbrev pub token_call_ok : RelayRoles → TokenCall → ℕ → Bool
token_call_ok roles approve_call target = may_hold_allowance roles target
token_call_ok roles transfer_call target = has_address target roles.depositories
token_call_ok roles other_call target = false

role-takes_part :
    (roles : RelayRoles) (e : Entrypoint) (a : ℕ) (run : CallsCheck) (args : List ℕ)
    (call : WalletCall) (route : Route) (o o' : Option Spend) {u : Unit {0}}
    → check_role roles e a ≡ ok u
    → check_entrypoint run e args call route o ≡ ok o'
    → takes_part roles e a ≡ true
unfolding check_role check_entrypoint
role-takes_part roles deposit_erc20 a run args call route o o' h k = ground arith
role-takes_part roles deposit_erc20_all a run args call route o o' h k = cc k
role-takes_part roles deposit_native a run args call route o o' h k = ground arith
role-takes_part roles multicall a run args call route o o' h k = ground arith
role-takes_part roles multicall_v2 a run args call route o o' h k = ground arith
role-takes_part roles transfer_and_multicall a run args call route o o' h k = ground arith
role-takes_part roles transfer_and_multicall_v2 a run args call route o o' h k = ground arith
role-takes_part roles forward a run args call route o o' h k = ground arith
role-takes_part roles undecoded a run args call route o o' h k = cc k

module _ (px : Parsers) (want : Expected) where
  -- A transaction that the checks accept: a call on the payer's token, or one on Relay's contracts.
  pub record OnToken (input_amount : ℕ) (t : Transaction) : Type 0 where
    pub is_token : t.to ≡ want.origin_currency
    pub selector : List ℕ
    pub args : List ℕ
    pub split : split_selector t.bytes ≡ some (selector, args)
    pub allowed : token_call_ok want.relay_roles (token_call selector) (word_from 12 32 args) ≡ true
    pub bounded : word_from 32 64 args ≤ input_amount

  pub record OnRelay (t : Transaction) : Type 0 where
    pub selector : List ℕ
    pub args : List ℕ
    pub split : split_selector t.bytes ≡ some (selector, args)
    pub allowed : takes_part want.relay_roles (entrypoint selector) t.to ≡ true

  -- A transaction of the payer on the origin chain that is one or the other.
  pub record Sent (input_amount : ℕ) (item : Value) : Type 0 where
    pub chain : unwrap_or (as_u64 (get_value "chainId" item)) 0 ≡ want.origin_chain_id
    pub sender : same_address px (text_of "from" item) want.user ≡ true
    pub transaction : Transaction
    pub read : read_step px want item ≡ ok transaction
    pub target : OnToken input_amount transaction ⊎ OnRelay transaction

  token_call-ok :
      (c : TokenCall) (target amount : ℕ) (s s' : Spend)
      → is_other_call c ≡ false
      → check_token_call px want c target amount s ≡ ok s'
      → token_call_ok want.relay_roles c target ≡ true
  unfolding check_token_call
  token_call-ok approve_call target amount s s' n h = ground arith
  token_call-ok transfer_call target amount s s' n h = ground arith
  token_call-ok other_call target amount s s' n h = ground arith

  token_step-OnToken :
      (t : Transaction) (input_amount : ℕ) (s s' : Spend)
      → t.to ≡ want.origin_currency
      → check_token_step px want t.bytes input_amount s ≡ ok s'
      → OnToken input_amount t
  unfolding check_token_step
  token_step-OnToken t input_amount s s' e h =
      let (parts, e1, h1) = or_refuse->>=-ok (split_selector t.bytes) _ _ h in
      let (e2, h2) =
        ensure-ok (not (is_other_call (token_call parts.0)) && leb 64 (length parts.1)) _ _ h1 in
      let (e3, h3) = ensure-ok (leb (word_from 32 64 parts.1) input_amount) _ _ h2 in
      record {
        is_token = e;
        selector = parts.0;
        args = parts.1;
        split = e1;
        allowed =
            token_call-ok (token_call parts.0) (word_from 12 32 parts.1) (word_from 32 64 parts.1) s
              s' (ground (arith, e2)) h3;
        bounded = ground (arith, e3);
      }

  relay_step-OnRelay :
      (t : Transaction) (input_amount : ℕ) (s s' : Spend)
      → check_relay_step px want t input_amount s ≡ ok s'
      → OnRelay t
  unfolding check_relay_step check_relay_call relay_call relay_with
  relay_step-OnRelay t input_amount s s' h =
      let call : WalletCall = record {
        to = t.to;
        calldata = t.bytes;
        value = value_wei px t.value;
      } in
      let route : Route = record { want = want; input_amount = input_amount; depth = 0 } in
      let (spent, e, h1) = >>=-ok (check_relay_call call route (some s)) _ h in
      let (parts, e1, h1) = or_refuse->>=-ok (split_selector t.bytes) _ _ e in
      let (u, e2, h2) = >>=-ok (check_role want.relay_roles (entrypoint parts.0) t.to) _ h1 in
      record {
        selector = parts.0;
        args = parts.1;
        split = e1;
        allowed =
            role-takes_part want.relay_roles (entrypoint parts.0) t.to
              (check_calls (check_nested_call nesting_fuel) call.value route) parts.1 call route
              (some s) spent e2 h2;
      }

  step-Sent :
      (step : QuoteStep) (item : Value) (input_amount : ℕ) (s : Spend) {r : RouteStep × Spend}
      → check_step px want step item input_amount s ≡ ok r
      → Sent input_amount item
  unfolding check_step check_transaction read_step
  step-Sent step item input_amount s h =
      let (t, e, h1) = >>=-ok (read_step px want item) _ h in
      let (s', e2, h2) = >>=-ok (check_transaction px want t input_amount s) _ h1 in
      let (e3, h3) =
        ensure-ok (unwrap_or (as_u64 (get_value "chainId" item)) 0 == want.origin_chain_id) _ _ e in
      let (e4, h4) = ensure-ok (same_address px (text_of "from" item) want.user) _ _ h3 in
      record {
        chain = ground (arith, e3);
        sender = e4;
        transaction = t;
        read = e;
        target =
            elim (if-ok (not (want.origin_currency == 0) && t.to == want.origin_currency) _ _ e2) [
              | inl (c, k) ↦ inl (token_step-OnToken t input_amount s s' (ground (arith, c)) k)
              | inr (c, k) ↦ elim (if-ok (is_relay want.relay_roles t.to) _ _ k) [
                | inl (c2, k2) ↦ inr (relay_step-OnRelay t input_amount s s' k2)
                | inr (c2, k2) ↦ refuse-ok k2
              ]
            ];
      }

  All-append :
      (P : Value → Type 0) (vs ws : List Value) → All P vs → All P ws → All P (append vs ws)
  All-append P [] ws h k = k
  All-append P (v ∷ vs) ws (a, h) k = (a, All-append P vs ws h k)

  items-Sent :
      (step : QuoteStep) (input_amount : ℕ) (items : List Value) (p p' : Progress)
      → check_items px want step input_amount items p ≡ ok p'
      → All (Sent input_amount) items
  unfolding check_items
  items-Sent step input_amount [] p p' h = tt
  items-Sent step input_amount (v ∷ vs) p p' h =
      let (e1, h1) = ensure-ok (not p.funded) _ _ h in
      let (r, e2, h2) = >>=-ok (check_step px want step v input_amount p.spend) _ h1 in
      (step-Sent step v input_amount p.spend e2, items-Sent step input_amount vs _ p' h2)

  steps-Sent :
      (input_amount : ℕ) (steps : List QuoteStep) (p p' : Progress)
      → check_steps px want input_amount steps p ≡ ok p'
      → All (Sent input_amount) (all_items steps)
  unfolding check_steps
  steps-Sent input_amount [] p p' h = tt
  steps-Sent input_amount (step ∷ steps) p p' h =
      let (e1, h1) = ensure-ok (str_eq step.kind "transaction") _ _ h in
      let (q, e2, h2) = >>=-ok (check_items px want step input_amount step.items p) _ h1 in
      All-append (Sent input_amount) step.items (all_items steps)
        (items-Sent step input_amount step.items p q e2) (steps-Sent input_amount steps q p' h2)

  -- Each transaction of an accepted quote is the payer's, on the origin chain, and it is either an
  -- approval for the depository or the approval proxy or a transfer to the depository on the payer's
  -- token, of no more than the quoted input, or a call of an entrypoint of Relay at a contract of the role
  -- that the entrypoint belongs to.
  pub check_quote-Sent :
      (quote : Quote) (r : RouteQuote)
      → check_quote px want quote ≡ ok r
      → (input_amount : ℕ) × (base_units px (some quote.details.currency_in.amount)
          ≡ some input_amount)
        × All (Sent input_amount) (all_items quote.steps)
  check_quote-Sent quote r h =
      let (input_amount, e, b) = check_quote-input px want quote r h in
      let c = check_route-RouteOk px want quote input_amount r.steps b in
      (input_amount, e, steps-Sent input_amount quote.steps no_progress c.progress c.progress_ok)
