-- ===== src/Relay/Consumed.antt =====
-- src/deposit/relay.rs, `check_nested_call`: what the nested calls of a pull move into the depository.
use gum_server.Prelude.{
  ℕ, suc, ◌+◌, ◌≤◌, ◌≡◌, inl, inr, sym, ap, ◌∙◌, Bool, true, false, ◌&&◌, not, Option, none, some,
  List, [], ◌∷◌, map, ◌==◌, leb, if◌then◌else◌, length, arith, All, is_some,
}
use gum_server.Relay.{Expected, has_address, is_relay, may_hold_allowance}
use gum_server.Prelude.Refusals.{
  Checked, ok, checked_add, sum, >>=-ok, ensure-ok, or_refuse->>=-ok, if-ok, refuse-ok,
  checked_add-ok,
}
use gum_server.Relay.Abi.{NestedCall, slice, from_be}
use gum_server.Relay.Spend.{Spend, slot, set_slot, slot_or_0}
use gum_server.Relay.Selectors.{
  TokenCall, approve_call, transfer_call, other_call, token_call, split_selector, starts_with,
  deposit_erc20_selector,
}
use gum_server.Relay.Entrypoints.{WalletCall, Route, Flow, deeper, check_calls, relay_call}
use gum_server.Relay.Nested.{
  word_from, is_other_call, nest_token_call, settle_flow, nest_allowance, nest_transfer,
  check_nested_token, draw_flow, check_nested_relay, nested_call_with, check_nested_call,
}

-- What a nested call moves into the depository: the amount of a depositErc20 to it.
unfoldable pub deposited : Expected → NestedCall → ℕ
unfolding slice from_be
deposited want c =
    if not (want.origin_currency == 0) && c.target == want.origin_currency
    then 0
    else if has_address c.target want.relay_roles.depositories
        && starts_with deposit_erc20_selector c.calldata
    then word_from 68 100 c.calldata
    else 0

-- What a flow has consumed in the end, if there is one.
abbrev pub Consumes : ℕ → Option Flow → Option Flow → Type 0
Consumes n none o = o ≡ none
Consumes n (some f) o = (f' : Flow) × (o ≡ some f') × (f'.consumed ≡ f.consumed + n)

draw_flow-consumed :
    (target amount : ℕ) (f f' : Flow)
    → draw_flow target amount f ≡ ok f'
    → f'.consumed ≡ f.consumed + amount
unfolding draw_flow
draw_flow-consumed target amount f f' h =
    let (held, e1, h1) = or_refuse->>=-ok (slot target f.granted) _ _ h in
    let (e2, h2) = ensure-ok (leb amount held) _ _ h1 in
    let (c, e3, h3) = or_refuse->>=-ok (checked_add f.consumed amount) _ _ h2 in
    cc (h3, checked_add-ok f.consumed amount e3)

nest_token-Consumes :
    (t : TokenCall) (spender amount : ℕ) (route : Route) (flow flow' : Option Flow)
    → nest_token_call t spender amount route flow ≡ ok flow'
    → Consumes 0 flow flow'
unfolding nest_allowance nest_transfer
nest_token-Consumes approve_call spender amount route none flow' h =
    let (e, h1) = ensure-ok (may_hold_allowance route.want.relay_roles spender) _ _ h in cc h1
nest_token-Consumes approve_call spender amount route (some f) flow' h =
    let (e, h1) = ensure-ok (may_hold_allowance route.want.relay_roles spender) _ _ h in
    let (g, e2, h2) = or_refuse->>=-ok (checked_add (slot_or_0 spender f.granted) amount) _ _ h1 in
    (record f { granted = set_slot spender g f.granted }, sym (cc h2), omega arith)
nest_token-Consumes transfer_call spender amount route none flow' h =
    let (e, h1) = ensure-ok (has_address spender route.want.relay_roles.depositories) _ _ h in cc h1
nest_token-Consumes transfer_call spender amount route (some f) flow' h = refuse-ok h
nest_token-Consumes other_call spender amount route none flow' h =
    let (e, h1) = ensure-ok (has_address spender route.want.relay_roles.depositories) _ _ h in cc h1
nest_token-Consumes other_call spender amount route (some f) flow' h = refuse-ok h

settle_flow-Consumes :
    (a b : Bool) (target : ℕ) (bytes : List ℕ) (flow flow' : Option Flow)
    → settle_flow (is_some flow && a && b) target bytes flow ≡ ok flow'
    → Consumes (if a && b then word_from 68 100 bytes else 0) flow flow'
settle_flow-Consumes a b target bytes none flow' h = cc h
settle_flow-Consumes true true target bytes (some f) flow' h =
    let (f', e, h1) = >>=-ok (draw_flow target (word_from 68 100 bytes) f) _ h in
    (f', cc h1, draw_flow-consumed target (word_from 68 100 bytes) f f' e)
settle_flow-Consumes true false target bytes (some f) flow' h = (f, cc h, omega arith)
settle_flow-Consumes false b target bytes (some f) flow' h = (f, cc h, omega arith)

module _ (relay : WalletCall → Route → Option Spend → Checked (Option Spend)) (c : NestedCall)
    (route : Route) where
  nested_token-Consumes :
      (flow flow' : Option Flow)
      → check_nested_token c.value c.calldata route flow ≡ ok flow'
      → Consumes 0 flow flow'
  unfolding check_nested_token nest_allowance nest_transfer
  nested_token-Consumes flow flow' h =
      let (e, h1) = ensure-ok (c.value == 0) _ _ h in
      let (parts, e2, h2) = or_refuse->>=-ok (split_selector c.calldata) _ _ h1 in
      let (e3, h3) = ensure-ok (not (is_other_call (token_call parts.0))) _ _ h2 in
      let (e4, h4) = ensure-ok (leb 64 (length parts.1)) _ _ h3 in
      let (e5, h5) = ensure-ok (leb (word_from 32 64 parts.1) route.input_amount) _ _ h4 in
      nest_token-Consumes (token_call parts.0) (word_from 12 32 parts.1) (word_from 32 64 parts.1)
        route flow flow' h5

  nested_relay-Consumes :
      (flow flow' : Option Flow)
      → check_nested_relay relay c.target c.value c.calldata route flow ≡ ok flow'
      → Consumes
          (if has_address c.target route.want.relay_roles.depositories
              && starts_with deposit_erc20_selector c.calldata
            then word_from 68 100 c.calldata
            else 0)
          flow
          flow'
  unfolding check_nested_relay
  nested_relay-Consumes flow flow' h =
      let (o, e, h1) =
        >>=-ok
          (relay (record { to = c.target; calldata = c.calldata; value = c.value }) (deeper route)
            none)
          _ h in
      settle_flow-Consumes (has_address c.target route.want.relay_roles.depositories)
        (starts_with deposit_erc20_selector c.calldata) c.target c.calldata flow flow' h1

  nested_call-Consumes :
      (flow flow' : Option Flow)
      → nested_call_with relay c.target c.value c.calldata route flow ≡ ok flow'
      → Consumes (deposited route.want c) flow flow'
  unfolding nested_call_with deposited
  nested_call-Consumes flow flow' h =
      let (e, h1) = ensure-ok (leb route.depth 1) _ _ h in
      elim (if-ok (not (route.want.origin_currency == 0) && c.target == route.want.origin_currency)
        _ _ h1) [
          | inl (e2, k) ↦ rw (e2, deposited) (nested_token-Consumes flow flow' k)
          | inr (e2, k) ↦ elim (if-ok (is_relay route.want.relay_roles c.target) _ _ k) [
            | inl (e3, l) ↦ rw (e2, deposited) (nested_relay-Consumes flow flow' l)
            | inr (e3, l) ↦ refuse-ok l
          ]
        ]

-- The calls that are nested: none may fail, and their values are the transaction's at most.
pub record Nests (tx_value : ℕ) (calls : List NestedCall) : Type 0 where
  pub must_succeed : All (λ c. c.allow_failure ≡ false) calls
  pub within_value : sum (map (λ c. c.value) calls) ≤ tx_value

module _ (fuel tx_value : ℕ) (route : Route) where
  pub check_calls-Consumes :
      (calls : List NestedCall) (value : ℕ) (f : Flow) (flow' : Option Flow)
      → check_calls (check_nested_call (suc fuel)) tx_value route calls value (some f) ≡ ok flow'
      → Consumes (sum (map (deposited route.want) calls)) (some f) flow'
  unfolding check_calls check_nested_call
  check_calls-Consumes [] value f flow' h = (f, cc h, omega arith)
  check_calls-Consumes (c ∷ calls) value f flow' h =
      let (e1, h1) = ensure-ok (not c.allow_failure) _ _ h in
      let (v, e2, h2) = or_refuse->>=-ok (checked_add value c.value) _ _ h1 in
      let (e3, h3) = ensure-ok (leb v tx_value) _ _ h2 in
      let (flow1, e4, h4) =
        >>=-ok (check_nested_call (suc fuel) c.target c.value c.calldata (deeper route) (some f)) _
          h3 in
      let (f1, e5, e6) =
        nested_call-Consumes (relay_call (check_nested_call fuel)) c (deeper route) (some f) flow1
          e4 in
      let next =
        ap (λ o. check_calls (check_nested_call (suc fuel)) tx_value route calls v o) (sym e5)
        ∙ h4 in
      let (f2, e7, e8) = check_calls-Consumes calls v f1 flow' next in
      (f2, e7, omega (arith, e6, e8))

  pub check_calls-succeed :
      (calls : List NestedCall) (value : ℕ) (flow flow' : Option Flow)
      → check_calls (check_nested_call fuel) tx_value route calls value flow ≡ ok flow'
      → All (λ c. c.allow_failure ≡ false) calls
  unfolding check_calls
  check_calls-succeed [] value flow flow' h = tt
  check_calls-succeed (c ∷ calls) value flow flow' h =
      let (e1, h1) = ensure-ok (not c.allow_failure) _ _ h in
      let (v, e2, h2) = or_refuse->>=-ok (checked_add value c.value) _ _ h1 in
      let (e3, h3) = ensure-ok (leb v tx_value) _ _ h2 in
      let (flow1, e4, h4) =
        >>=-ok (check_nested_call fuel c.target c.value c.calldata (deeper route) flow) _ h3 in
      (ground (arith, e1), check_calls-succeed calls v flow1 flow' h4)

  pub check_calls-value :
      (calls : List NestedCall) (value : ℕ) (flow flow' : Option Flow)
      → value ≤ tx_value
      → check_calls (check_nested_call fuel) tx_value route calls value flow ≡ ok flow'
      → value + sum (map (λ c. c.value) calls) ≤ tx_value
  unfolding check_calls
  check_calls-value [] value flow flow' le h = omega (arith, le)
  check_calls-value (c ∷ calls) value flow flow' le h =
      let (e1, h1) = ensure-ok (not c.allow_failure) _ _ h in
      let (v, e2, h2) = or_refuse->>=-ok (checked_add value c.value) _ _ h1 in
      let (e3, h3) = ensure-ok (leb v tx_value) _ _ h2 in
      let (flow1, e4, h4) =
        >>=-ok (check_nested_call fuel c.target c.value c.calldata (deeper route) flow) _ h3 in
      omega (
        arith,
        check_calls-value calls v flow1 flow' (ground (arith, e3)) h4,
        checked_add-ok value c.value e2,
      )
