-- ===== src/Relay/Actions.antt =====
-- What a transaction of a route does to the payer's wallet, read from its target and its calldata: the
-- tab that src/deposit/relay.rs keeps is the tab of these actions.
use gum_server.Prelude.{
  ℕ, ◌+◌, ◌≡◌, refl, sym, ◌∙◌, ap, Bool, true, false, not, Option, none, some, List, [], ◌∷◌, map,
  ◌==◌, leb, length, arith,
}
use gum_server.Prelude.Refusals.{
  ok, checked_add, sum, >>=-ok, ensure-ok, or_refuse->>=-ok, checked_add-ok,
}
use gum_server.Relay.Abi as Abi
use gum_server.Relay.Abi.{Abi, at_start, static_items, address, uint}
use gum_server.Relay.Spend.{Spend, transfer, pull}
use gum_server.Relay.Selectors.{
  Entrypoint, deposit_erc20, deposit_erc20_all, deposit_native, multicall, multicall_v2,
  transfer_and_multicall, transfer_and_multicall_v2, forward, undecoded, entrypoint, split_selector,
}
use gum_server.Relay.Entrypoints.{
  WalletCall, Route, CallsCheck, pull_optional, check_deposit_erc20, check_deposit_native,
  deposit_args, pulled_args, pull_each, check_pulls, check_multicall, is_other, native_args,
  check_role, check_entrypoint, relay_with, DepositArgs,
}
use gum_server.Relay.Multicalls.{check_multicall-Multicall}
use gum_server.Relay.Wallet.{Action, draw}
use gum_server.Relay.Tally.{tally, tally_all}

-- The tab of the wallet, where one is kept.
abbrev pub tally_optional : List Action → Option Spend → Option Spend
tally_optional acts none = none
tally_optional acts (some s) = some (tally_all acts s)

abbrev pub draws : ℕ → List ℕ → List Action
draws to amounts = map (draw to) amounts

abbrev deposit_draws : ℕ → Option (DepositArgs × Abi) → List Action
deposit_draws to none = []
deposit_draws to (some (d, r)) = draw to d.amount ∷ []

abbrev pulled_draws : ℕ → Option (Option (List ℕ × List ℕ) × Abi) → List Action
pulled_draws to (some (some (tokens, amounts), r)) = draws to amounts
pulled_draws to other = []

-- The depository draws the amount that it is asked to, the approval proxy each of its amounts.
unfoldable pub entrypoint_actions : Entrypoint → ℕ → List ℕ → List Action
unfolding deposit_args pulled_args
entrypoint_actions deposit_erc20 to args = deposit_draws to (deposit_args (at_start args))
entrypoint_actions transfer_and_multicall to args =
    pulled_draws to (pulled_args true (at_start args))
entrypoint_actions transfer_and_multicall_v2 to args =
    pulled_draws to (pulled_args true (at_start args))
entrypoint_actions other to args = []

unfoldable pub relay_actions : ℕ → List ℕ → List Action
unfolding split_selector entrypoint entrypoint_actions
relay_actions to bytes = elim (split_selector bytes) [
  | none ↦ []
  | some (selector, args) ↦ entrypoint_actions (entrypoint selector) to args
]

pull-tally :
    (to amount : ℕ) (s s' : Spend) → pull to amount s ≡ ok s' → s' ≡ tally (draw to amount) s
unfolding pull transfer
pull-tally to amount s s' h = ground (arith)

pull_optional-tally :
    (to amount : ℕ) (o o' : Option Spend)
    → pull_optional to amount o ≡ ok o'
    → o' ≡ tally_optional (draw to amount ∷ []) o
unfolding pull_optional
pull_optional-tally to amount none o' h = ground arith
pull_optional-tally to amount (some s) o' h =
    let (s', e, k) = >>=-ok (pull to amount s) _ h in cc (k, pull-tally to amount s s' e)

tally_optional-cons :
    (a : Action) (acts : List Action) (o : Option Spend)
    → tally_optional acts (tally_optional (a ∷ []) o) ≡ tally_optional (a ∷ acts) o
tally_optional-cons a acts none = refl
tally_optional-cons a acts (some s) = refl

pull_each-tally :
    (to : ℕ) (route : Route) (tokens amounts : List ℕ) (total : ℕ) (o : Option Spend)
    {r : ℕ × Option Spend}
    → length tokens ≡ length amounts
    → pull_each to route tokens amounts total o ≡ ok r
    → (r.0 ≡ total + sum amounts) × (r.1 ≡ tally_optional (draws to amounts) o)
unfolding pull_each
pull_each-tally to route [] [] total none n h = (ground (arith, h), cc h)
pull_each-tally to route [] [] total (some s) n h = (ground (arith, h), cc h)
pull_each-tally to route [] (a ∷ amounts) total o n h = ground (arith, n)
pull_each-tally to route (t ∷ tokens) [] total o n h = ground (arith, n)
pull_each-tally to route (t ∷ tokens) (a ∷ amounts) total o {r} n h =
    let (e1, h1) = ensure-ok (t == route.want.origin_currency) _ _ h in
    let (e2, h2) = ensure-ok (not (route.want.origin_currency == 0)) _ _ h1 in
    let (e3, h3) = ensure-ok (leb a route.input_amount) _ _ h2 in
    let (o', e4, h4) = >>=-ok (pull_optional to a o) _ h3 in
    let (total', e5, h5) = or_refuse->>=-ok (checked_add total a) _ _ h4 in
    let (p, q) = pull_each-tally to route tokens amounts total' o' (omega (arith, n)) h5 in
    (
      omega (arith, p, checked_add-ok total a e5),
      q
          ∙ ap (tally_optional (draws to amounts)) (pull_optional-tally to a o o' e4)
          ∙ tally_optional-cons (draw to a) (draws to amounts) o,
    )

tally_none : (o : Option Spend) → o ≡ tally_optional [] o
tally_none none = refl
tally_none (some s) = refl

pub check_pulls-tally :
    (to : ℕ) (route : Route) (tokens amounts : List ℕ) (o : Option Spend) {r : ℕ × Option Spend}
    → check_pulls to route (some (tokens, amounts)) o ≡ ok r
    → (r.0 ≡ sum amounts) × (r.1 ≡ tally_optional (draws to amounts) o)
unfolding check_pulls
check_pulls-tally to route tokens amounts o h =
    let (n, k) = ensure-ok (length tokens == length amounts) _ _ h in
    let (p, q) = pull_each-tally to route tokens amounts 0 o (ground (arith, n)) k in
    (omega (arith, p), q)

pub pulled_args-some :
    (r r' : Abi) (p : Option (List ℕ × List ℕ))
    → pulled_args true r ≡ some (p, r')
    → (tokens : List ℕ) × (amounts : List ℕ) × (p ≡ some (tokens, amounts))
unfolding pulled_args
pulled_args-some r r' p h =
    let (tokens, r1, e1, h1) = Abi.>>=-some (static_items address) _ r h in
    let (amounts, r2, e2, h2) = Abi.>>=-some (static_items uint) _ r1 h1 in (tokens, amounts, cc h2)

module _ (run : CallsCheck) (args : List ℕ) (call : WalletCall) (route : Route)
    (o o' : Option Spend) where
  deposit-tally :
      check_deposit_erc20 args call route o ≡ ok o'
      → o' ≡ tally_optional (entrypoint_actions deposit_erc20 call.to args) o
  unfolding check_deposit_erc20 entrypoint_actions
  deposit-tally h =
      let (d, e, h1) = or_refuse->>=-ok (deposit_args (at_start args)) _ _ h in
      let (e2, h2) = ensure-ok (not (is_other d.0.depositor route.want.user)) _ _ h1 in
      let (e3, h3) = ensure-ok (d.0.token == route.want.origin_currency) _ _ h2 in
      let (e4, h4) = ensure-ok (leb d.0.amount route.input_amount) _ _ h3 in
      rw e (pull_optional-tally call.to d.0.amount o o' h4)

  -- A multicall that pulls draws each of the amounts; another one draws nothing.
  pull-tally_multicall :
      (with_metadata : Bool)
      → check_multicall run true with_metadata args call route o ≡ ok o'
      → o' ≡ tally_optional (pulled_draws call.to (pulled_args true (at_start args))) o
  pull-tally_multicall with_metadata h =
      let m = check_multicall-Multicall run true with_metadata args call route o o' h in
      let (tokens, amounts, e) = pulled_args-some (at_start args) m.behind m.pulled m.pulled_ok in
      let (p, q) =
        check_pulls-tally call.to route tokens amounts o
          (sym (ap (λ x. check_pulls call.to route x o) e) ∙ m.taken_ok) in
      q
      ∙ ap (λ x. tally_optional (pulled_draws call.to x) o)
          (sym (m.pulled_ok ∙ ap (λ x. some (x, m.behind)) e))

  plain-tally_multicall :
      (with_metadata : Bool)
      → check_multicall run false with_metadata args call route o ≡ ok o'
      → o' ≡ tally_optional [] o
  unfolding pulled_args check_pulls
  plain-tally_multicall with_metadata h =
      let m = check_multicall-Multicall run false with_metadata args call route o o' h in
      let none_pulled : none ≡ m.pulled = cc m.pulled_ok in
      cc (ap (λ x. check_pulls call.to route x o) none_pulled ∙ m.taken_ok, tally_none o)

  entrypoint-tally :
      (e : Entrypoint)
      → check_entrypoint run e args call route o ≡ ok o'
      → o' ≡ tally_optional (entrypoint_actions e call.to args) o
  unfolding check_entrypoint entrypoint_actions check_deposit_native
  entrypoint-tally deposit_erc20 h = deposit-tally h
  entrypoint-tally deposit_erc20_all h = cc h
  entrypoint-tally deposit_native h =
      let (d, e, h1) = or_refuse->>=-ok (native_args (at_start args)) _ _ h in
      let (e2, h2) = ensure-ok (not (is_other d.0 route.want.user)) _ _ h1 in cc (h2, tally_none o)
  entrypoint-tally multicall h = plain-tally_multicall true h
  entrypoint-tally multicall_v2 h = plain-tally_multicall false h
  entrypoint-tally transfer_and_multicall h = pull-tally_multicall true h
  entrypoint-tally transfer_and_multicall_v2 h = pull-tally_multicall false h
  entrypoint-tally forward h =
      let (d, e, h1) = or_refuse->>=-ok (Abi.bytes_arg (at_start args)) _ _ h in
      cc (h1, tally_none o)
  entrypoint-tally undecoded h = cc h

-- An accepted call to Relay's contracts puts its actions on the tab.
pub relay_with-tally :
    (run : CallsCheck) (call : WalletCall) (route : Route) (o o' : Option Spend)
    → relay_with run call route o ≡ ok o'
    → o' ≡ tally_optional (relay_actions call.to call.calldata) o
unfolding relay_with relay_actions
relay_with-tally run call route o o' h =
    let (parts, e, h1) = or_refuse->>=-ok (split_selector call.calldata) _ _ h in
    let (u, e2, h2) =
      >>=-ok (check_role route.want.relay_roles (entrypoint parts.0) call.to) _ h1 in
    rw (e, relay_actions) (entrypoint-tally run parts.1 call route o o' (entrypoint parts.0) h2)
