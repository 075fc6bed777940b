-- ===== src/Relay/Offered.antt =====
-- src/deposit/relay.rs, `quote`: what the handler answers to a payer is for the payer's deposit.
use gum_server.Prelude.{ℕ, ◌%◌, ◌≤◌, ◌<◌, ◌≡◌, true, false, ◌&&◌, some, List, ◌==◌}
use gum_server.Prelude.Json.{Value}
use gum_server.Prelude.Refusals.{ok}
use gum_server.Deposit.{Deposit}
use gum_server.Requests.{lead_below}
use gum_server.Relay.{Expected, is_relay}
use gum_server.Relay.Terms.{Parsers}
use gum_server.Relay.Quote.{Quote, RouteQuote, order_data}
use gum_server.Relay.Checks.{check_quote}
use gum_server.Relay.Honoured.{Honours}
use gum_server.Relay.Bounds.{Details}
use gum_server.Relay.Chains.{RelayChain, relay_roles, usable, can_receive}
use gum_server.Relay.Handler.{Relay, answered, accepts_payment, owed, quote_request}

module _ (px : Parsers) where
  -- The terms are those of the deposit, for an amount of at least one that is still owed.
  pub record ForDeposit (d : Deposit) (want : Expected) : Type 0 where
    pub same_chain : want.destination_chain_id ≡ d.chain_id
    pub same_token : want.token ≡ d.token_address
    pub same_recipient : want.recipient ≡ d.payment_address
    pub same_decimals : want.token_decimals ≡ d.token_decimals % 256
    pub amount_pos : 0 < want.amount
    pub amount_owed : want.amount ≤ owed d
    pub user_nonzero : (want.user == 0) ≡ false

  module _ (relay : Relay) where
    -- The contracts are those of a usable chain of Relay's list, the origin's, and none is zero.
    pub record OnChain (want : Expected) : Type 0 where
      pub chains : List RelayChain
      pub listed : relay.chains ≡ answered chains
      pub origin : RelayChain
      pub is_origin : (origin.id == want.origin_chain_id && usable origin) ≡ true
      pub roles : want.relay_roles ≡ relay_roles px origin
      pub no_zero : is_relay want.relay_roles 0 ≡ false
      pub receives : can_receive chains want.destination_chain_id ≡ true

    -- A quote that is shown to a payer.
    pub record Offered (d : Deposit) (now : ℕ) (r : RouteQuote) : Type 0 where
      pub is_open : accepts_payment d.status ≡ true
      pub in_time : lead_below relay.min_time_left_secs d.expires_at now ≡ false
      pub want : Expected
      pub for_deposit : ForDeposit d want
      pub on_chain : OnChain want
      pub found : Quote
      pub asked : relay.quote_of (quote_request px relay want) ≡ answered found
      pub accepted : check_quote px want found ≡ ok r
      pub input_amount : ℕ
      pub details : Details px want found.details input_amount
      pub order : Value
      pub signed : order_data found.protocol ≡ some order
      pub honoured : Honours px want input_amount order
