-- ===== src/Relay/Levels.antt =====
-- src/deposit/relay.rs: the two checks of calls end, since nested calls nest no calls.
use gum_server.Prelude.{ℕ, zero, suc, ◌≤◌, ◌≡◌, refl, ap, not, Option, List, [], ◌∷◌, leb, arith}
use gum_server.Prelude.Refusals.{◌>>=◌, ◌>>◌, ensure, or_refuse, checked_add}
use gum_server.Relay.Abi.{NestedCall}
use gum_server.Relay.Spend.{Spend}
use gum_server.Relay.Entrypoints.{
  WalletCall, Flow, Route, NestedCheck, deeper, check_calls, relay_with, relay_call,
}
use gum_server.Relay.Nested.{
  nested_call_with, check_nested_relay, check_nested_call, check_relay_call, nesting_fuel,
}

-- Two checks of nested calls that agree on the calls of one route.
Agree : NestedCheck → NestedCheck → Route → Type 0
Agree f g route =
    (target value : ℕ) (bytes : List ℕ) (flow : Option Flow)
    → f target value bytes route flow ≡ g target value bytes route flow

module _ (f g : NestedCheck) (tx_value : ℕ) (route : Route) (agree : Agree f g (deeper route)) where
  check_calls-Agree :
      (calls : List NestedCall) (nested_value : ℕ) (flow : Option Flow)
      → check_calls f tx_value route calls nested_value flow
        ≡ check_calls g tx_value route calls nested_value flow
  unfolding check_calls Agree
  check_calls-Agree [] nested_value flow = refl
  check_calls-Agree (c ∷ calls) nested_value flow = λ i. do
    ensure (not c.allow_failure) "nests a call that may fail without saying so"
    nested_value' ← or_refuse (checked_add nested_value c.value) "nested calls overflow"
    ensure (leb nested_value' tx_value) "nests calls worth more than the transaction's value"
    flow' ← agree c.target c.value c.calldata flow i
    check_calls-Agree calls nested_value' flow' i

relay_call-Agree :
    (f g : NestedCheck) (route : Route)
    → Agree f g (deeper route)
    → (call : WalletCall) (spend : Option Spend)
    → relay_call f call route spend ≡ relay_call g call route spend
unfolding relay_call relay_with
relay_call-Agree f g route agree call spend =
    ap (λ run. relay_with run call route spend)
      (λ i calls value flow. check_calls-Agree f g call.value route agree calls value flow i)

-- Where nested calls are too deep, no round is made.
too_deep :
    (n m : ℕ) (route : Route)
    → 2 ≤ route.depth
    → Agree (check_nested_call (suc n)) (check_nested_call (suc m)) route
unfolding check_nested_call nested_call_with Agree
too_deep n m route h target value bytes flow = ground arith

nested_call-Agree :
    (f g : NestedCheck) (route : Route)
    → Agree f g (deeper (deeper route))
    → Agree (nested_call_with (relay_call f)) (nested_call_with (relay_call g)) route
unfolding nested_call_with check_nested_relay Agree
nested_call-Agree f g route agree target value bytes flow =
    rw (relay_call-Agree f g (deeper route) agree) refl

one_round :
    (fuel : ℕ) (route : Route)
    → nesting_fuel ≤ fuel
    → 1 ≤ route.depth
    → Agree (check_nested_call fuel) (check_nested_call nesting_fuel) route
unfolding check_nested_call
one_round zero route h k = ground arith
one_round (suc zero) route h k = ground arith
one_round (suc (suc n)) route h k =
    nested_call-Agree (check_nested_call (suc n)) (check_nested_call 1) route
      (too_deep n 0 (deeper (deeper route)) (omega arith))

-- Two rounds of nesting are enough for every call: with more of them the check of a call to Relay's
-- contracts answers the same.
pub check_relay_call-enough :
    (fuel : ℕ) (call : WalletCall) (route : Route) (spend : Option Spend)
    → nesting_fuel ≤ fuel
    → relay_call (check_nested_call fuel) call route spend ≡ check_relay_call call route spend
unfolding check_relay_call
check_relay_call-enough fuel call route spend h =
    relay_call-Agree (check_nested_call fuel) (check_nested_call nesting_fuel) route
      (one_round fuel (deeper route) h (omega arith)) call spend
