-- ===== src/Relay/Deposits.antt =====
-- src/deposit/relay.rs, `check_nested_call`: the nested deposits are of the payer's token.
use gum_server.Prelude.{
  ℕ, suc, ◌≡◌, ◌⊎◌, inl, inr, refl, sym, ap, ◌∙◌, Bool, true, false, ◌&&◌, not, Option, none, some,
  List, [], ◌∷◌, ◌==◌, leb, length, arith, All, Bool-cases,
}
use gum_server.Relay.{Expected, has_address, is_relay}
use gum_server.Prelude.Refusals.{
  ok, checked_add, >>=-ok, ensure-ok, or_refuse->>=-ok, if-ok, refuse-ok,
}
use gum_server.Relay.Abi.{Abi, NestedCall, at_start}
use gum_server.Relay.Spend.{Spend}
use gum_server.Relay.Selectors.{
  entrypoint, deposit_erc20, split_selector, starts_with, bytes_eq, deposit_erc20_selector,
}
use gum_server.Relay.Entrypoints.{
  WalletCall, Route, Flow, DepositArgs, deposit_args, is_other, check_role, check_deposit_erc20,
  check_entrypoint, relay_with, relay_call, check_calls, deeper, pull_each, pull_optional,
  check_pulls,
}
use gum_server.Relay.Words.{split-four, deposit_args-amount, shifted}
use gum_server.Relay.Nested.{word_from, check_nested_relay, nested_call_with, check_nested_call}

-- A depositErc20 to the depository, by a contract that is not the payer's token.
abbrev pub is_deposit_call : Expected → NestedCall → Bool
is_deposit_call want c =
    not (not (want.origin_currency == 0) && c.target == want.origin_currency)
    && has_address c.target want.relay_roles.depositories
    && starts_with deposit_erc20_selector c.calldata

-- It decodes to a deposit of the payer's token, of the amount that is counted, that credits nobody else than
-- the payer.
pub record IsDeposit (want : Expected) (c : NestedCall) : Type 0 where
  pub selector : List ℕ
  pub args : List ℕ
  pub split : split_selector c.calldata ≡ some (selector, args)
  pub decoded : DepositArgs
  pub behind : Abi
  pub decoded_ok : deposit_args (at_start args) ≡ some (decoded, behind)
  pub same_token : decoded.token ≡ want.origin_currency
  pub same_amount : decoded.amount ≡ word_from 68 100 c.calldata
  pub credited : is_other decoded.depositor want.user ≡ false

abbrev pub DepositsToken : Expected → NestedCall → Type 0
DepositsToken want c = (is_deposit_call want c ≡ false) ⊎ IsDeposit want c

all-last : (a b c : Bool) → (a && b && c) ≡ true → c ≡ true
all-last a b c h = ground arith

starts-deposit :
    (want : Expected) (c : NestedCall)
    → is_deposit_call want c ≡ true
    → starts_with deposit_erc20_selector c.calldata ≡ true
starts-deposit want c h =
    all-last (not (not (want.origin_currency == 0) && c.target == want.origin_currency))
      (has_address c.target want.relay_roles.depositories)
      (starts_with deposit_erc20_selector c.calldata) h

split-starts :
    (bytes selector args : List ℕ)
    → split_selector bytes ≡ some (selector, args)
    → starts_with deposit_erc20_selector bytes ≡ true
    → bytes_eq selector deposit_erc20_selector ≡ true
unfolding split_selector
split-starts [] selector args h k = cc k
split-starts (a ∷ []) selector args h k = ground (arith, k)
split-starts (a ∷ b ∷ []) selector args h k = ground (arith, k)
split-starts (a ∷ b ∷ c ∷ []) selector args h k = ground (arith, k)
split-starts (a ∷ b ∷ c ∷ d ∷ rest) selector args h k =
    let same : a ∷ b ∷ c ∷ d ∷ [] ≡ selector = cc (sym (split-four a b c d rest) ∙ h) in
    ap (λ s. bytes_eq s deposit_erc20_selector) (sym same) ∙ ground (arith, k)

entrypoint-deposit :
    (selector : List ℕ)
    → bytes_eq selector deposit_erc20_selector ≡ true
    → entrypoint selector ≡ deposit_erc20
unfolding entrypoint
entrypoint-deposit selector h = rw h refl

module _ (fuel : ℕ) (c : NestedCall) (route : Route) where
  abbrev call_of : WalletCall
  call_of = record { to = c.target; calldata = c.calldata; value = c.value }

  check_deposit_erc20-IsDeposit :
      (selector args : List ℕ) (spend spend' : Option Spend)
      → split_selector c.calldata ≡ some (selector, args)
      → check_deposit_erc20 args call_of route spend ≡ ok spend'
      → IsDeposit route.want c
  unfolding check_deposit_erc20
  check_deposit_erc20-IsDeposit selector args spend spend' split h =
      let (d, e, h1) = or_refuse->>=-ok (deposit_args (at_start args)) _ _ h in
      let (e2, h2) = ensure-ok (not (is_other d.0.depositor route.want.user)) _ _ h1 in
      let (e3, h3) = ensure-ok (d.0.token == route.want.origin_currency) _ _ h2 in
      record {
        selector = selector;
        args = args;
        split = split;
        decoded = d.0;
        behind = d.1;
        decoded_ok = e;
        same_token = ground (arith, e3);
        same_amount =
            deposit_args-amount args d.0 d.1 e ∙ sym (shifted c.calldata selector args split);
        credited = ground (arith, e2);
      }

  relay_call-IsDeposit :
      (spend spend' : Option Spend)
      → starts_with deposit_erc20_selector c.calldata ≡ true
      → relay_call (check_nested_call fuel) call_of route spend ≡ ok spend'
      → IsDeposit route.want c
  unfolding relay_call relay_with check_entrypoint
  relay_call-IsDeposit spend spend' starts h =
      let (parts, e1, h1) = or_refuse->>=-ok (split_selector c.calldata) _ _ h in
      let (u, e2, h2) =
        >>=-ok (check_role route.want.relay_roles (entrypoint parts.0) c.target) _ h1 in
      let is_it = entrypoint-deposit parts.0 (split-starts c.calldata parts.0 parts.1 e1 starts) in
      let run = check_calls (check_nested_call fuel) c.value route in
      check_deposit_erc20-IsDeposit parts.0 parts.1 spend spend' e1
        (ap (λ e. check_entrypoint run e parts.1 call_of route spend) (sym is_it) ∙ h2)

module _ (fuel : ℕ) (c : NestedCall) (route : Route) (flow flow' : Option Flow) where
  nested_call-DepositsToken :
      nested_call_with (relay_call (check_nested_call fuel)) c.target c.value c.calldata route flow
        ≡ ok flow'
      → DepositsToken route.want c
  unfolding nested_call_with check_nested_relay
  nested_call-DepositsToken h = elim (Bool-cases (is_deposit_call route.want c)) [
    | inr e ↦ inl e
    | inl e ↦
        let (e1, h1) = ensure-ok (leb route.depth 1) _ _ h in
        elim (if-ok
          (not (route.want.origin_currency == 0) && c.target == route.want.origin_currency) _ _
          h1) [
            | inl (e2, k) ↦ ground (arith, e, e2)
            | inr (e2, k) ↦ elim (if-ok (is_relay route.want.relay_roles c.target) _ _ k) [
              | inr (e3, l) ↦ refuse-ok l
              | inl (e3, l) ↦
                  let (o, e4, h4) =
                    >>=-ok
                      (relay_call (check_nested_call fuel) (call_of fuel c route) (deeper route)
                        none)
                      _ l in
                  inr (
                    relay_call-IsDeposit fuel c (deeper route) none o
                      (starts-deposit route.want c e) e4)
            ]
          ]
  ]

module _ (fuel tx_value : ℕ) (route : Route) where
  pub check_calls-DepositsToken :
      (calls : List NestedCall) (value : ℕ) (flow flow' : Option Flow)
      → check_calls (check_nested_call (suc fuel)) tx_value route calls value flow ≡ ok flow'
      → All (DepositsToken route.want) calls
  unfolding check_calls check_nested_call
  check_calls-DepositsToken [] value flow flow' h = tt
  check_calls-DepositsToken (c ∷ calls) value flow flow' h =
      let (e1, h1) = ensure-ok (not c.allow_failure) _ _ h in
      let (v, e2, h2) = or_refuse->>=-ok (checked_add value c.value) _ _ h1 in
      let (e3, h3) = ensure-ok (leb v tx_value) _ _ h2 in
      let (flow1, e4, h4) =
        >>=-ok (check_nested_call (suc fuel) c.target c.value c.calldata (deeper route) flow) _
          h3 in
      (
        nested_call-DepositsToken fuel c (deeper route) flow flow1 e4,
        check_calls-DepositsToken calls v flow1 flow' h4,
      )

-- The tokens that are pulled are the one that the payer pays with, an amount for each.
pull_each-tokens :
    (to : ℕ) (route : Route) (tokens amounts : List ℕ) (total : ℕ) (o : Option Spend)
    {r : ℕ × Option Spend}
    → length tokens ≡ length amounts
    → pull_each to route tokens amounts total o ≡ ok r
    → All (λ t. (t ≡ route.want.origin_currency) × ((t == 0) ≡ false)) tokens
unfolding pull_each
pull_each-tokens to route [] amounts total o n h = tt
pull_each-tokens to route (t ∷ tokens) [] total o n h = ground (arith, n)
pull_each-tokens to route (t ∷ tokens) (a ∷ amounts) total o n h =
    let (e1, h1) = ensure-ok (t == route.want.origin_currency) _ _ h in
    let (e2, h2) = ensure-ok (not (route.want.origin_currency == 0)) _ _ h1 in
    let (e3, h3) = ensure-ok (leb a route.input_amount) _ _ h2 in
    let (o', e4, h4) = >>=-ok (pull_optional to a o) _ h3 in
    let (total', e5, h5) = or_refuse->>=-ok (checked_add total a) _ _ h4 in
    (
      (ground (arith, e1), ground (arith, e1, e2)),
      pull_each-tokens to route tokens amounts total' o' (omega (arith, n)) h5,
    )

pub check_pulls-tokens :
    (to : ℕ) (route : Route) (tokens amounts : List ℕ) (o : Option Spend) {r : ℕ × Option Spend}
    → check_pulls to route (some (tokens, amounts)) o ≡ ok r
    → (length tokens ≡ length amounts)
      × All (λ t. (t ≡ route.want.origin_currency) × ((t == 0) ≡ false)) tokens
unfolding check_pulls
check_pulls-tokens to route tokens amounts o h =
    let (n, k) = ensure-ok (length tokens == length amounts) _ _ h in
    let same : length tokens ≡ length amounts = ground (arith, n) in
    (same, pull_each-tokens to route tokens amounts 0 o same k)
