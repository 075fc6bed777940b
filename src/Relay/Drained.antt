-- ===== src/Relay/Drained.antt =====
-- src/deposit/relay.rs, `check_relay_call`: a pull leaves nothing in Relay's router.
use mathlib.Core.Path.{subst}
use gum_server.Prelude.{
  ℕ, suc, ◌≡◌, sym, ap, ◌∙◌, Bool, true, false, Option, some, List, map, arith, length, All, false,
  ◌==◌,
}
use gum_server.Relay.{Expected}
use gum_server.Prelude.Refusals.{ok, sum, >>=-ok, or_refuse->>=-ok}
use gum_server.Relay.Abi.{Abi, at_start}
use gum_server.Relay.Spend.{Spend}
use gum_server.Relay.Selectors.{
  Entrypoint, transfer_and_multicall, transfer_and_multicall_v2, entrypoint,
  is_transfer_and_multicall, split_selector,
}
use gum_server.Relay.Entrypoints.{
  WalletCall, Route, no_flow, is_drained, is_other, pulled_args, multicall_args, check_pulls,
  MulticallArgs, check_calls, check_role, check_entrypoint, check_multicall, relay_with, relay_call,
}
use gum_server.Relay.Nested.{check_nested_call, check_relay_call}
use gum_server.Relay.Multicalls.{check_multicall-Multicall}
use gum_server.Relay.Actions.{check_pulls-tally, pulled_args-some}
use gum_server.Relay.Deposits.{DepositsToken, check_calls-DepositsToken, check_pulls-tokens}
use gum_server.Relay.Consumed.{
  deposited, Nests, check_calls-Consumes, check_calls-succeed, check_calls-value,
}

-- What a pull through the approval proxy decodes to, and where its tokens go.
pub record Drained (args : List ℕ) (call : WalletCall) (want : Expected) : Type 0 where
  pub tokens : List ℕ
  pub amounts : List ℕ
  pub behind : Abi
  pub pulled_ok : pulled_args true (at_start args) ≡ some (some (tokens, amounts), behind)
  pub same_length : length tokens ≡ length amounts
  pub same_tokens : All (λ t. (t ≡ want.origin_currency) × ((t == 0) ≡ false)) tokens
  pub metadata : Bool
  pub decoded : MulticallArgs
  pub rest : Abi
  pub decoded_ok : multicall_args metadata behind ≡ some (decoded, rest)
  pub surplus : is_other decoded.refund_to want.user ≡ false
  pub nests : Nests call.value decoded.calls
  pub deposits : All (DepositsToken want) decoded.calls
  pub drained : sum (map (deposited want) decoded.calls) ≡ sum amounts

module _ (fuel : ℕ) (args : List ℕ) (call : WalletCall) (route : Route) (o o' : Option Spend) where
  multicall-Drained :
      (with_metadata : Bool)
      → check_multicall
          (check_calls (check_nested_call (suc fuel)) call.value route)
          true
          with_metadata
          args
          call
          route
          o
        ≡ ok o'
      → Drained args call route.want
  multicall-Drained with_metadata h =
      let run = check_calls (check_nested_call (suc fuel)) call.value route in
      let m = check_multicall-Multicall run true with_metadata args call route o o' h in
      let (tokens, amounts, e) = pulled_args-some (at_start args) m.behind m.pulled m.pulled_ok in
      let pulls = sym (ap (λ x. check_pulls call.to route x o) e) ∙ m.taken_ok in
      let (n, all_same) = check_pulls-tokens call.to route tokens amounts o pulls in
      let (p, q) = check_pulls-tally call.to route tokens amounts o pulls in
      let (f, e2, e3) =
        check_calls-Consumes fuel call.value route m.decoded.calls 0 no_flow m.flow m.flow_ok in
      let used = sym (ap (λ x. is_drained x m.total) e2) ∙ m.drained in
      record {
        tokens = tokens;
        amounts = amounts;
        behind = m.behind;
        pulled_ok = m.pulled_ok ∙ ap (λ x. some (x, m.behind)) e;
        same_length = n;
        same_tokens = all_same;
        metadata = with_metadata;
        decoded = m.decoded;
        rest = m.rest;
        decoded_ok = m.decoded_ok;
        surplus = m.surplus;
        nests = record {
          must_succeed =
              check_calls-succeed (suc fuel) call.value route m.decoded.calls 0 (some no_flow)
                m.flow m.flow_ok;
          within_value = omega (
            arith,
            check_calls-value (suc fuel) call.value route m.decoded.calls 0 (some no_flow) m.flow
                (omega arith) m.flow_ok,
          );
        };
        deposits =
            check_calls-DepositsToken fuel call.value route m.decoded.calls 0 (some no_flow) m.flow
              m.flow_ok;
        drained = ground (arith, used, e3, p);
      }

  entrypoint-Drained :
      (e : Entrypoint)
      → is_transfer_and_multicall e ≡ true
      → check_entrypoint
          (check_calls (check_nested_call (suc fuel)) call.value route)
          e
          args
          call
          route
          o
        ≡ ok o'
      → Drained args call route.want
  unfolding check_entrypoint
  entrypoint-Drained transfer_and_multicall t h = multicall-Drained true h
  entrypoint-Drained transfer_and_multicall_v2 t h = multicall-Drained false h
  entrypoint-Drained other t h = cc t

-- An accepted pull through the approval proxy leaves nothing in the router: what it pulls is of the
-- payer's token; what its nested calls deposit in the depository is as much, each amount that of a decoded
-- deposit of that token that credits nobody else than the payer; none of the calls may fail, their values are within the
-- transaction's, and a surplus goes to nobody else than the payer.
pub check_relay_call-Drained :
    (selector args : List ℕ) (call : WalletCall) (route : Route) (o o' : Option Spend)
    → split_selector call.calldata ≡ some (selector, args)
    → is_transfer_and_multicall (entrypoint selector) ≡ true
    → check_relay_call call route o ≡ ok o'
    → Drained args call route.want
unfolding check_relay_call relay_call relay_with
check_relay_call-Drained selector args call route o o' s t h =
    let (parts, e1, h1) = or_refuse->>=-ok (split_selector call.calldata) _ _ h in
    let (u, e2, h2) =
      >>=-ok (check_role route.want.relay_roles (entrypoint parts.0) call.to) _ h1 in
    let eq : parts ≡ (selector, args) = cc (e1, s) in
    subst (λ x. Drained x.1 call route.want) eq
      (entrypoint-Drained 1 parts.1 call route o o' (entrypoint parts.0)
        (ap (λ x. is_transfer_and_multicall (entrypoint x.0)) eq ∙ t) h2)
