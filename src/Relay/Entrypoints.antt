-- ===== src/Relay/Entrypoints.antt =====
-- src/deposit/relay.rs, `check_relay_call`: a call to one of Relay's contracts, over the check of the
-- calls that it nests. Of `Route`, the step's id is left out: it is only spelled in messages.
use gum_server.Prelude.{
  ℕ, suc, Bool, true, false, ◌&&◌, ◌||◌, not, Option, none, some, List, [], ◌∷◌, ◌==◌, leb,
  if◌then◌else◌, length,
}
use gum_server.Relay.{RelayRoles, Expected, has_address}
use gum_server.Prelude.Refusals.{Checked, ok, refuse, ◌>>=◌, ◌>>◌, ensure, or_refuse, checked_add}
use gum_server.Relay.Abi as Abi
use gum_server.Relay.Abi.{Abi, Read, NestedCall, at_start}
use gum_server.Relay.Spend.{Spend, Slots, pull}
use gum_server.Relay.Selectors.{
  Entrypoint, deposit_erc20, deposit_erc20_all, deposit_native, multicall, multicall_v2,
  transfer_and_multicall, transfer_and_multicall_v2, forward, undecoded, entrypoint, split_selector,
  is_deposit, is_multicall, is_transfer_and_multicall, is_forward,
}

pub record WalletCall : Type 0 where
  pub to : ℕ
  pub calldata : List ℕ
  pub value : ℕ

-- The allowances that the nested calls granted, still undrawn, and the tokens that they moved into
-- the depository.
pub record Flow : Type 0 where
  pub granted : Slots
  pub consumed : ℕ

abbrev pub no_flow : Flow
no_flow = record { granted = []; consumed = 0 }

pub record Route : Type 0 where
  pub want : Expected
  pub input_amount : ℕ
  pub depth : ℕ

-- The target, the value and the calldata of a nested call, its route and the flow.
abbrev pub NestedCheck : Type 0
NestedCheck = ℕ → ℕ → List ℕ → Route → Option Flow → Checked (Option Flow)

-- `!a.is_zero() && a != user`
abbrev pub is_other : ℕ → ℕ → Bool
is_other a user = not (a == 0) && not (a == user)

-- `if let Some(spend) = spend { spend.pull(to, amount)?; }`
unfoldable pub pull_optional : ℕ → ℕ → Option Spend → Checked (Option Spend)
unfolding pull
pull_optional to amount none = ok none
pull_optional to amount (some s) = do s' ← pull to amount s; ok (some s')

-- A known selector belongs to the contracts of one role.
unfoldable pub check_role : RelayRoles → Entrypoint → ℕ → Checked (Unit {0})
check_role roles e to = do
  ensure (not (is_deposit e) || has_address to roles.depositories)
      "deposits through an address which is not Relay's depository"
  ensure (not (is_multicall e) || has_address to roles.routers)
      "runs nested calls through an address which is not Relay's router"
  ensure (not (is_transfer_and_multicall e) || has_address to roles.approval_proxies)
      "pulls on an allowance through an address which is not Relay's approval proxy"
  ensure (not (is_forward e) || has_address to roles.receivers)
      "forwards value through an address which is not Relay's receiver"

pub record DepositArgs : Type 0 where
  pub depositor : ℕ
  pub token : ℕ
  pub amount : ℕ

-- depositErc20(address,address,uint256,bytes32)
unfoldable pub deposit_args : Read DepositArgs
deposit_args = Abi.◌>>=◌ Abi.address λ depositor. Abi.◌>>=◌ Abi.address λ token.
    Abi.◌>>=◌ Abi.uint λ amount.
      Abi.◌>>=◌ Abi.word
        λ order_id. Abi.pure (record { depositor = depositor; token = token; amount = amount })

unfoldable pub check_deposit_erc20 :
    List ℕ → WalletCall → Route → Option Spend → Checked (Option Spend)
unfolding deposit_args pull_optional
check_deposit_erc20 args call route spend = do
  decoded ← or_refuse (deposit_args (at_start args)) "has malformed depositErc20 arguments"
  ensure (not (is_other decoded.0.depositor route.want.user)) "deposits as another than the payer"
  ensure (decoded.0.token == route.want.origin_currency)
      "deposits a token which is not the token being paid with"
  ensure (leb decoded.0.amount route.input_amount) "deposits more than the quoted"
  pull_optional call.to decoded.0.amount spend

-- depositNative(address,bytes32)
unfoldable pub native_args : Read ℕ
native_args = Abi.◌>>=◌ Abi.address λ depositor. Abi.◌>>=◌ Abi.word λ order_id. Abi.pure depositor

unfoldable pub check_deposit_native :
    List ℕ → WalletCall → Route → Option Spend → Checked (Option Spend)
unfolding native_args
check_deposit_native args call route spend = do
  decoded ← or_refuse (native_args (at_start args)) "has malformed depositNative arguments"
  ensure (not (is_other decoded.0 route.want.user)) "deposits as another than the payer"
  ok spend

-- The tokens and the amounts of a pull.
unfoldable pub pulled_args : Bool → Read (Option (List ℕ × List ℕ))
pulled_args false = Abi.pure none
pulled_args true =
    Abi.◌>>=◌ (Abi.static_items Abi.address)
      λ tokens. Abi.◌>>=◌ (Abi.static_items Abi.uint) λ amounts. Abi.pure (some (tokens, amounts))

pub record MulticallArgs : Type 0 where
  pub calls : List NestedCall
  pub refund_to : ℕ
  pub nft_recipient : ℕ

abbrev metadata : Bool → Read (List ℕ)
metadata false = Abi.pure []
metadata true = Abi.bytes_arg

unfoldable pub multicall_args : Bool → Read MulticallArgs
multicall_args with_metadata = Abi.◌>>=◌ Abi.nested_calls λ calls.
    Abi.◌>>=◌ Abi.address λ refund_to. Abi.◌>>=◌ Abi.address λ nft_recipient.
      Abi.◌>>=◌ (metadata with_metadata) λ bytes.
        Abi.pure (record { calls = calls; refund_to = refund_to; nft_recipient = nft_recipient })

-- `tokens.into_iter().zip(amounts)`, after `total` of the pulls so far.
unfoldable pub pull_each :
    ℕ → Route → List ℕ → List ℕ → ℕ → Option Spend → Checked (ℕ × Option Spend)
unfolding pull_optional
pull_each to route (token ∷ tokens) (amount ∷ amounts) total spend = do
  ensure (token == route.want.origin_currency)
      "pulls a token which is not the token being paid with"
  ensure (not (route.want.origin_currency == 0))
      "pulls the chain's native currency, which no allowance can"
  ensure (leb amount route.input_amount) "pulls more than the quoted"
  spend' ← pull_optional to amount spend
  total' ← or_refuse (checked_add total amount) "pulls more than a quote can bound"
  pull_each to route tokens amounts total' spend'
pull_each to route tokens amounts total spend = ok (total, spend)

unfoldable pub check_pulls :
    ℕ → Route → Option (List ℕ × List ℕ) → Option Spend → Checked (ℕ × Option Spend)
unfolding pull_each
check_pulls to route none spend = ok (0, spend)
check_pulls to route (some (tokens, amounts)) spend = do
  ensure (length tokens == length amounts) "pulls tokens and amounts of different lengths"
  pull_each to route tokens amounts 0 spend

abbrev pub deeper : Route → Route
deeper route = record route { depth = suc route.depth }

module _ (nested : NestedCheck) where
  -- The loop over the nested calls, after `nested_value` of the calls so far.
  unfoldable pub check_calls : ℕ → Route → List NestedCall → ℕ → Option Flow → Checked (Option Flow)
  check_calls tx_value route [] nested_value flow = ok flow
  check_calls tx_value route (c ∷ calls) nested_value flow = do
    ensure (not c.allow_failure) "nests a call that may fail without saying so"
    nested_value' ← or_refuse (checked_add nested_value c.value) "nested calls overflow"
    ensure (leb nested_value' tx_value) "nests calls worth more than the transaction's value"
    flow' ← nested c.target c.value c.calldata (deeper route) flow
    check_calls tx_value route calls nested_value' flow'

-- `flow.filter(|f| f.consumed != pulled_total)`
abbrev pub is_drained : Option Flow → ℕ → Bool
is_drained none pulled = true
is_drained (some f) pulled = f.consumed == pulled

-- The check of the nested calls of a route, after the value of those so far.
abbrev pub CallsCheck : Type 0
CallsCheck = List NestedCall → ℕ → Option Flow → Checked (Option Flow)

module _ (run : CallsCheck) where
  unfoldable pub check_multicall :
      Bool → Bool → List ℕ → WalletCall → Route → Option Spend → Checked (Option Spend)
  unfolding pulled_args multicall_args check_pulls
  check_multicall pulls with_metadata args call route spend = do
    pulled ←
        or_refuse (pulled_args pulls (at_start args)) "has malformed transferAndMulticall arguments"
    decoded ← or_refuse (multicall_args with_metadata pulled.1) "has malformed multicall arguments"
    ensure (not (is_other decoded.0.refund_to route.want.user))
        "sends its surplus to another than the payer"
    ensure (not (is_other decoded.0.nft_recipient route.want.user))
        "sends its claims to another than the payer"
    ensure (not (pulls && length decoded.0.calls == 0))
        "pulls the quoted input but runs no calls to deposit it"
    taken ← check_pulls call.to route pulled.0 spend
    flow ← run decoded.0.calls 0 (if pulls then some no_flow else none)
    ensure (is_drained flow taken.0)
        "leaves some of the pulled in Relay's router, where anyone could sweep it"
    ok taken.1

  -- The branch of each selector.
  unfoldable pub check_entrypoint :
      Entrypoint → List ℕ → WalletCall → Route → Option Spend → Checked (Option Spend)
  unfolding check_deposit_erc20 check_deposit_native check_multicall
  check_entrypoint deposit_erc20 args call route spend = check_deposit_erc20 args call route spend
  check_entrypoint deposit_erc20_all args call route spend =
      refuse "deposits by the wallet's whole allowance, which no quote bounds"
  check_entrypoint deposit_native args call route spend = check_deposit_native args call route spend
  check_entrypoint multicall args call route spend =
      check_multicall false true args call route spend
  check_entrypoint multicall_v2 args call route spend =
      check_multicall false false args call route spend
  check_entrypoint transfer_and_multicall args call route spend =
      check_multicall true true args call route spend
  check_entrypoint transfer_and_multicall_v2 args call route spend =
      check_multicall true false args call route spend
  check_entrypoint forward args call route spend = do
    decoded ← or_refuse (Abi.bytes_arg (at_start args)) "has malformed forward arguments"
    ok spend
  check_entrypoint undecoded args call route spend = refuse "makes a call the checks don't decode"

-- `check_relay_call`, over the check of the nested calls.
unfoldable pub relay_with : CallsCheck → WalletCall → Route → Option Spend → Checked (Option Spend)
unfolding check_role check_entrypoint
relay_with run call route spend = do
  parts ← or_refuse (split_selector call.calldata) "calls a contract with no selector"
  check_role route.want.relay_roles (entrypoint parts.0) call.to
  check_entrypoint run (entrypoint parts.0) parts.1 call route spend

unfoldable pub relay_call : NestedCheck → WalletCall → Route → Option Spend → Checked (Option Spend)
unfolding relay_with check_calls
relay_call nested call route spend =
    relay_with (check_calls nested call.value route) call route spend
