-- ===== src/Relay/Multicalls.antt =====
-- src/deposit/relay.rs, `check_relay_call`: what is known of a multicall that is accepted.
use gum_server.Prelude.{
  ℕ, arith, ◌≡◌, Bool, true, false, ◌&&◌, not, Option, none, some, List, ◌==◌, if◌then◌else◌,
  length,
}
use gum_server.Prelude.Refusals.{ok, >>=-ok, ensure-ok, or_refuse->>=-ok}
use gum_server.Relay.Abi.{Abi, at_start}
use gum_server.Relay.Spend.{Spend}
use gum_server.Relay.Entrypoints.{
  WalletCall, Route, Flow, no_flow, CallsCheck, MulticallArgs, is_other, is_drained, pulled_args,
  multicall_args, check_pulls, check_multicall,
}

-- The parts of the check, each with its result.
pub record Multicall (run : CallsCheck) (pulls with_metadata : Bool) (args : List ℕ)
    (call : WalletCall) (route : Route) (spend spend' : Option Spend) : Type 0 where
  pub pulled : Option (List ℕ × List ℕ)
  pub behind : Abi
  pub pulled_ok : pulled_args pulls (at_start args) ≡ some (pulled, behind)
  pub decoded : MulticallArgs
  pub rest : Abi
  pub decoded_ok : multicall_args with_metadata behind ≡ some (decoded, rest)
  pub surplus : is_other decoded.refund_to route.want.user ≡ false
  pub claims : is_other decoded.nft_recipient route.want.user ≡ false
  pub total : ℕ
  pub taken_ok : check_pulls call.to route pulled spend ≡ ok (total, spend')
  pub flow : Option Flow
  pub flow_ok : run decoded.calls 0 (if pulls then some no_flow else none) ≡ ok flow
  pub drained : is_drained flow total ≡ true

not-true : {b : Bool} → not b ≡ true → b ≡ false
not-true h = ground arith

pub check_multicall-Multicall :
    (run : CallsCheck) (pulls with_metadata : Bool) (args : List ℕ) (call : WalletCall)
    (route : Route) (spend spend' : Option Spend)
    → check_multicall run pulls with_metadata args call route spend ≡ ok spend'
    → Multicall run pulls with_metadata args call route spend spend'
unfolding check_multicall
check_multicall-Multicall run pulls with_metadata args call route spend spend' h =
    let (pulled, e1, h1) = or_refuse->>=-ok (pulled_args pulls (at_start args)) _ _ h in
    let (decoded, e2, h2) = or_refuse->>=-ok (multicall_args with_metadata pulled.1) _ _ h1 in
    let (e3, h3) = ensure-ok (not (is_other decoded.0.refund_to route.want.user)) _ _ h2 in
    let (e4, h4) = ensure-ok (not (is_other decoded.0.nft_recipient route.want.user)) _ _ h3 in
    let (e5, h5) = ensure-ok (not (pulls && length decoded.0.calls == 0)) _ _ h4 in
    let (taken, e6, h6) = >>=-ok (check_pulls call.to route pulled.0 spend) _ h5 in
    let (flow, e7, h7) =
      >>=-ok (run decoded.0.calls 0 (if pulls then some no_flow else none)) _ h6 in
    let (e8, h8) = ensure-ok (is_drained flow taken.0) _ _ h7 in
    record {
      pulled = pulled.0;
      behind = pulled.1;
      pulled_ok = e1;
      decoded = decoded.0;
      rest = decoded.1;
      decoded_ok = e2;
      surplus = not-true e3;
      claims = not-true e4;
      total = taken.0;
      taken_ok = cc (e6, h8);
      flow = flow;
      flow_ok = e7;
      drained = e8;
    }
