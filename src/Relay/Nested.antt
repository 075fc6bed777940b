-- ===== src/Relay/Nested.antt =====
-- src/deposit/relay.rs, `check_nested_call` and `check_relay_call`: a call nested in a multicall of
-- Relay's router, and the nesting of the two checks.
use gum_server.Prelude.{
  ℕ, zero, suc, ◌-◌, Bool, true, false, ◌&&◌, not, Option, none, some, List, ◌==◌, leb,
  if◌then◌else◌, length, is_some,
}
use gum_server.Relay.{has_address, is_relay, may_hold_allowance}
use gum_server.Prelude.Refusals.{Checked, ok, refuse, ◌>>=◌, ◌>>◌, ensure, or_refuse, checked_add}
use gum_server.Relay.Abi.{slice, from_be}
use gum_server.Relay.Spend.{Spend, slot, slot_or_0, set_slot}
use gum_server.Relay.Selectors.{
  TokenCall, approve_call, other_call, token_call, split_selector, starts_with,
  deposit_erc20_selector,
}
use gum_server.Relay.Entrypoints.{WalletCall, Flow, Route, NestedCheck, deeper, relay_call}

-- `Address::from_slice(&args[12..32])` and `U256::from_be_slice(&args[32..64])`, where there are 64.
abbrev pub word_from : ℕ → ℕ → List ℕ → ℕ
word_from from to args = elim (slice from to args) [ none ↦ 0 | some w ↦ from_be w ]

abbrev pub is_other_call : TokenCall → Bool
is_other_call other_call = true
is_other_call c = false

-- The router's allowance goes to whoever turns it into a deposit.
unfoldable pub nest_allowance : ℕ → ℕ → Route → Option Flow → Checked (Option Flow)
nest_allowance spender amount route none = do
  ensure (may_hold_allowance route.want.relay_roles spender)
      "nests an allowance to an address which may not hold one"
  ok none
nest_allowance spender amount route (some f) = do
  ensure (may_hold_allowance route.want.relay_roles spender)
      "nests an allowance to an address which may not hold one"
  granted ←
      or_refuse (checked_add (slot_or_0 spender f.granted) amount) "nested allowances overflow"
  ok (some (record f { granted = set_slot spender granted f.granted }))

-- A plain transfer is no way out of a pull, and goes where deposits are held.
unfoldable pub nest_transfer : ℕ → Route → Option Flow → Checked (Option Flow)
nest_transfer spender route (some f) =
    refuse "nests a plain transfer which a misbehaving token could silently not make"
nest_transfer spender route none = do
  ensure (has_address spender route.want.relay_roles.depositories)
      "nests a transfer to an address which is not Relay's depository"
  ok none

abbrev pub nest_token_call : TokenCall → ℕ → ℕ → Route → Option Flow → Checked (Option Flow)
nest_token_call approve_call spender amount route flow = nest_allowance spender amount route flow
nest_token_call other spender amount route flow = nest_transfer spender route flow

unfoldable pub check_nested_token : ℕ → List ℕ → Route → Option Flow → Checked (Option Flow)
unfolding nest_allowance nest_transfer
check_nested_token value bytes route flow = do
  ensure (value == 0) "sends value with a call on the token, which takes none"
  parts ← or_refuse (split_selector bytes) "nests a call on the token with no selector"
  ensure (not (is_other_call (token_call parts.0))) "nests an unexpected call on the payer's token"
  ensure (leb 64 (length parts.1)) "nests a call on the token with truncated arguments"
  ensure (leb (word_from 32 64 parts.1) route.input_amount) "nests a call for more than the quoted"
  nest_token_call (token_call parts.0) (word_from 12 32 parts.1) (word_from 32 64 parts.1) route
      flow

-- A nested deposit draws the router's fresh allowance down.
unfoldable pub draw_flow : ℕ → ℕ → Flow → Checked Flow
unfolding slot set_slot
draw_flow target amount f = do
  held ← or_refuse (slot target f.granted) "draws down what no nested call approved"
  ensure (leb amount held) "draws down more than the nested calls approved"
  consumed ← or_refuse (checked_add f.consumed amount) "nested deposits overflow"
  ok (record { granted = set_slot target (held - amount) f.granted; consumed = consumed })

abbrev pub settle_flow : Bool → ℕ → List ℕ → Option Flow → Checked (Option Flow)
settle_flow true target bytes (some f) = do
  f' ← draw_flow target (word_from 68 100 bytes) f
  ok (some f')
settle_flow deposits target bytes flow = ok flow

-- The check of a call to Relay's contracts, for the calls nested in it.
module _ (relay : WalletCall → Route → Option Spend → Checked (Option Spend)) where
  unfoldable pub check_nested_relay : NestedCheck
  unfolding draw_flow slice from_be
  check_nested_relay target value bytes route flow = do
    spend ← relay (record { to = target; calldata = bytes; value = value }) (deeper route) none
    settle_flow
        (is_some flow
          && has_address target route.want.relay_roles.depositories
          && starts_with deposit_erc20_selector bytes)
        target bytes flow

  -- `check_nested_call`
  unfoldable pub nested_call_with : NestedCheck
  unfolding check_nested_token check_nested_relay
  nested_call_with target value bytes route flow = do
    ensure (leb route.depth 1) "nests calls within nested calls"
    if not (route.want.origin_currency == 0) && target == route.want.origin_currency
        then check_nested_token value bytes route flow
        else if is_relay route.want.relay_roles target
        then check_nested_relay target value bytes route flow
        else refuse "nests a call to an address which is neither Relay's nor the payer's token"

-- The two checks call each other with a greater depth, for as many rounds as there is fuel.
unfoldable pub check_nested_call : ℕ → NestedCheck
unfolding nested_call_with relay_call
check_nested_call zero target value bytes route flow = refuse "out of fuel"
check_nested_call (suc fuel) target value bytes route flow =
    nested_call_with (relay_call (check_nested_call fuel)) target value bytes route flow

-- Two rounds: calls at the depths 1 and 3.
abbrev pub nesting_fuel : ℕ
nesting_fuel = 2

unfoldable pub check_relay_call : WalletCall → Route → Option Spend → Checked (Option Spend)
unfolding relay_call check_nested_call
check_relay_call call route spend = relay_call (check_nested_call nesting_fuel) call route spend
