-- ===== src/Relay/Handler.antt =====
-- src/deposit/relay.rs, `expected` and `quote`: the handler that asks Relay for a quote and answers what
-- the checks accept. An error is named by its code, or by its message where its code is invalid_request.
-- Relay and the rate limiters are parameters; `quote_of` gets the request. The referrer is left out.
use gum_server.Prelude.{
  ℕ, ◌-◌, ◌%◌, String, Bool, true, false, ◌&&◌, ◌||◌, not, Option, none, some, List, [], ◌==◌,
  str_eq, leb, if◌then◌else◌, first,
}
use gum_server.Prelude.Ascii.{codes, trim, lower, all_digits}
use gum_server.Prelude.Text.{decimal, hex_address}
use gum_server.Prelude.Refusals.{Checked, ok, refuse, ◌>>=◌, ◌>>◌, ensure, or_refuse}
use gum_server.Deposit.{Deposit}
use gum_server.Deposit.Status.{DepositStatus, pending, partial_paid}
use gum_server.Requests.{lead_below}
use gum_server.Relay.{RelayRoles, Expected}
use gum_server.Relay.Terms.{Parsers}
use gum_server.Relay.Quote.{Quote, RouteQuote}
use gum_server.Relay.Checks.{check_quote}
use gum_server.Relay.Chains.{
  RelayChain, relay_roles, usable, can_receive, pays_directly, lists_address, chain_names,
  chain_token_decimals,
}

pub record QuoteBody : Type 0 where
  pub user : String
  pub origin_chain_id : ℕ
  pub origin_currency : String
  pub amount : String

pub data UpstreamError : Type 0 where
  not_configured transport unavailable malformed : UpstreamError
  rejected : String → UpstreamError

pub data Answer (A : Type 0) : Type 0 where
  answered : A → Answer A
  failed : UpstreamError → Answer A

unfoldable pub relay_error : UpstreamError → String
relay_error not_configured = "relay_disabled"
relay_error other = "relay_unavailable"

-- Relay's refusals by their codes.
unfoldable pub refusal_code : String → String
refusal_code code =
    if str_eq code "AMOUNT_TOO_LOW"
    then "amount_too_low"
    else if str_eq code "AMOUNT_TOO_HIGH" || str_eq code "INSUFFICIENT_LIQUIDITY"
    then "insufficient_liquidity"
    else if str_eq code "SWAP_IMPACT_TOO_HIGH"
    then "price_impact_too_high"
    else if str_eq code "SANCTIONED_WALLET_ADDRESS" || str_eq code "SANCTIONED_CURRENCY"
    then "blocked"
    else if str_eq code "CHAIN_DISABLED" || str_eq code "ROUTE_TEMPORARILY_RESTRICTED"
    then "route_unavailable"
    else "no_route"

unfoldable pub quote_error : UpstreamError → String
unfolding relay_error refusal_code
quote_error (rejected code) = refusal_code code
quote_error other = relay_error other

abbrev pub answer_or : {A : Type 0} → (UpstreamError → String) → Answer A → Checked A
answer_or f (answered a) = ok a
answer_or f (failed e) = refuse (f e)

pub record RelayCurrency : Type 0 where
  pub chain_id : ℕ
  pub address : String
  pub decimals : ℕ

pub record QuoteRequest : Type 0 where
  pub user : String
  pub recipient : String
  pub refund_to : String
  pub refund_on_origin : Bool
  pub origin_chain_id : ℕ
  pub origin_currency : String
  pub destination_chain_id : ℕ
  pub destination_currency : String
  pub amount : String
  pub trade_type : String
  pub enable_true_exact_output : Bool
  pub force_solver_execution : Bool

-- The settings, what the limiters say to this request, and Relay's answers.
pub record Relay : Type 0 where
  pub is_configured : Bool
  pub min_time_left_secs : ℕ
  pub probe_unlisted_tokens : Bool
  pub may_read : Bool
  pub may_quote_deposit : Bool
  pub may_quote : Bool
  pub chains : Answer (List RelayChain)
  pub search_currencies : ℕ → String → Answer (List RelayCurrency)
  pub quote_of : QuoteRequest → Answer Quote

unfoldable pub accepts_payment : DepositStatus → Bool
accepts_payment pending = true
accepts_payment partial_paid = true
accepts_payment other = false

abbrev pub no_roles : RelayRoles
no_roles = record { depositories = []; approval_proxies = []; receivers = []; routers = [] }

-- What is still owed: `saturating_sub`.
abbrev pub owed : Deposit → ℕ
owed d = d.amount - d.confirmed_amount

abbrev pub or_rejected : Checked RouteQuote → Checked RouteQuote
or_rejected (ok r) = ok r
or_rejected (refuse problem) = refuse "route_rejected"

module _ (px : Parsers) where
  unfoldable pub expected : Deposit → QuoteBody → Checked Expected
  unfolding trim all_digits
  expected d body = do
    user ← or_refuse (px.address (trim body.user)) "user is not an address"
    ensure (not (user == 0)) "user must not be the zero address"
    currency ←
        or_refuse (px.address (trim body.origin_currency)) "origin_currency is not an address"
    ensure (not (str_eq (trim body.amount) "") && all_digits (codes (trim body.amount)))
        "amount must be a whole number of base units"
    amount ← or_refuse (px.uint (trim body.amount)) "amount does not fit uint256"
    ensure (not (amount == 0) && leb amount (owed d))
        "amount must be between 1 and what is still owed"
    ok (record {
      user = user;
      origin_chain_id = body.origin_chain_id;
      origin_currency = currency;
      destination_chain_id = d.chain_id;
      token = d.token_address;
      recipient = d.payment_address;
      amount = amount;
      relay_roles = no_roles;
      origin_decimals = 0;
      token_decimals = d.token_decimals % 256;
      origin_chain_names = [];
      destination_chain_names = [];
    })

  abbrev pub names_of : List RelayChain → ℕ → List String
  names_of chains id = elim (first (λ c. c.id == id) chains) [ none ↦ [] | some c ↦ chain_names c ]

  -- The token by Relay's search, on the origin chain.
  unfoldable pub searched_decimals : Expected → List RelayCurrency → Option ℕ
  unfolding lower hex_address
  searched_decimals want found =
      elim (first
        (λ t.
          t.chain_id == want.origin_chain_id
          && str_eq (lower t.address) (lower (hex_address want.origin_currency)))
        found) [ none ↦ none | some t ↦ some t.decimals ]

  module _ (relay : Relay) where
    unfoldable pub origin_decimals : RelayChain → Expected → Checked ℕ
    unfolding chain_token_decimals searched_decimals relay_error
    origin_decimals origin want = elim (chain_token_decimals origin want.origin_currency) [
      | some n ↦ ok n
      | none ↦ do
        ensure relay.may_read "rate_limited"
        found ←
            answer_or relay_error
              (relay.search_currencies want.origin_chain_id (hex_address want.origin_currency))
        or_refuse (searched_decimals want found) "that token is not known to Relay on this chain"
    ]

    -- Whether the payer may pay with the token.
    unfoldable pub offers : RelayChain → ℕ → Bool
    unfolding pays_directly lower hex_address
    offers origin currency =
        (relay.probe_unlisted_tokens
          && lists_address (hex_address currency) origin.solver_currencies)
        || pays_directly origin (hex_address currency)

    unfoldable pub quote_request : Expected → QuoteRequest
    unfolding hex_address decimal
    quote_request want = record {
      user = hex_address want.user;
      recipient = hex_address want.recipient;
      refund_to = hex_address want.user;
      refund_on_origin = true;
      origin_chain_id = want.origin_chain_id;
      origin_currency = hex_address want.origin_currency;
      destination_chain_id = want.destination_chain_id;
      destination_currency = hex_address want.token;
      amount = decimal want.amount;
      trade_type = "EXACT_OUTPUT";
      enable_true_exact_output = true;
      force_solver_execution = want.origin_chain_id == want.destination_chain_id;
    }

    -- The guards before Relay is asked.
    unfoldable pub check_open : Deposit → ℕ → Checked (Unit {0})
    unfolding accepts_payment lead_below
    check_open d now = do
      ensure relay.is_configured "relay_disabled"
      ensure (accepts_payment d.status) "closed"
      ensure (not (lead_below relay.min_time_left_secs d.expires_at now)) "closing"

    -- The terms with what Relay's list says of the two chains.
    unfoldable pub complete : Expected → Checked Expected
    unfolding usable offers relay_roles chain_names origin_decimals can_receive
    complete want = do
      ensure
          (not (
            want.origin_chain_id == want.destination_chain_id
            && want.origin_currency == want.token))
          "that is the requested token itself: send it with a plain transfer"
      chains ← answer_or relay_error relay.chains
      origin ←
          or_refuse (first (λ c. c.id == want.origin_chain_id && usable c) chains)
            "unsupported_chain"
      ensure (offers origin want.origin_currency) "unsupported_token"
      decimals ← origin_decimals origin want
      ensure (can_receive chains want.destination_chain_id) "route_unavailable"
      ok (record want {
        relay_roles = relay_roles px origin;
        origin_decimals = decimals;
        origin_chain_names = chain_names origin;
        destination_chain_names = names_of chains want.destination_chain_id;
      })

    -- The handler, from the deposit that was found.
    unfoldable pub quote : Deposit → QuoteBody → ℕ → Checked RouteQuote
    unfolding check_open expected complete quote_request quote_error check_quote
    quote d body now = do
      check_open d now
      terms ← expected d body
      want ← complete terms
      ensure relay.may_quote_deposit "rate_limited"
      ensure relay.may_quote "rate_limited"
      found ← answer_or quote_error (relay.quote_of (quote_request want))
      or_rejected (check_quote px want found)
