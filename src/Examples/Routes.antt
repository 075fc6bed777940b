-- ===== src/Examples/Routes.antt =====
-- Runs of the checks of Relay's quotes at a concrete quote: an approval and a deposit for a payment.
use Prim.Native.String.{◌++◌}
use gum_server.Prelude.{
  ◌==◌, ◌/◌, ◌%◌, ℕ, zero, suc, ◌+◌, ◌*◌, ◌-◌, ◌≤◌, ◌≡◌, refl, String, true, false, none, some,
  List, [], ◌∷◌, leb, if◌then◌else◌, append, map, All, arith,
}
use gum_server.Prelude.Json.{Value, number, string, array, object, nil, cons, field, end}
use gum_server.Prelude.Ascii.{codes, after_0x, parse_u64, is_hex_digit}
use gum_server.Prelude.Text.{decimal, hex_address, hex_bytes}
use gum_server.Relay.{Expected}
use gum_server.Prelude.Refusals.{ok, sum}
use gum_server.Relay.Terms.{Parsers}
use gum_server.Relay.Entrypoints.{WalletCall, Route, relay_call}
use gum_server.Relay.Nested.{check_nested_call, check_relay_call}
use gum_server.Relay.Levels.{check_relay_call-enough}
use gum_server.Relay.Drained.{Drained, check_relay_call-Drained}
use gum_server.Relay.Abi as Abi
use gum_server.Relay.{may_hold_allowance, is_relay}
use gum_server.Relay.Selectors.{
  token_call, entrypoint, split_selector, approve_selector, deposit_erc20_selector,
}
use gum_server.Relay.Quote.{Quote, QuoteCurrency, RouteQuote}
use gum_server.Relay.Checks.{check_quote}
use gum_server.Relay.Quote.{RouteAmount, order_data, all_items}
use gum_server.Relay.Terms.{base_units}
use gum_server.Relay.Spend.{exposure, exposure_from, no_spend, grant, set_slot, slot}
use gum_server.Relay.Wallet.{Action, approve, draw, drawn, perform_all, fresh}
use gum_server.Relay.Tally.{tally_all}
use gum_server.Relay.Tabs.{steps_actions}
use gum_server.Relay.Steps.{value_wei, is_approval}
use gum_server.Relay.Honoured.{Honours}
use gum_server.Relay.Bounds.{Details, check_quote-bound, check_quote-Honours}
use gum_server.Relay.Shape.{check_quote-last}
use gum_server.Relay.Targets.{Sent, check_quote-Sent}

-- The digit of a character, and the number and the bytes that hexadecimal digits spell.
abbrev digit_of : ℕ → ℕ
digit_of c = if leb c 57 then c - 48 else if leb c 70 then c - 55 else c - 87

abbrev number_of : ℕ → List ℕ → ℕ
number_of acc [] = acc
number_of acc (c ∷ cs) = number_of (acc * 16 + digit_of c) cs

abbrev bytes_of : List ℕ → List ℕ
bytes_of [] = []
bytes_of (c ∷ []) = []
bytes_of (c ∷ d ∷ cs) = (digit_of c * 16 + digit_of d) ∷ bytes_of cs

unfoldable pub parsers : Parsers
unfolding after_0x parse_u64
parsers = record {
  address = λ s. elim (after_0x s) [ none ↦ none | some t ↦ some (number_of 0 (codes t)) ];
  uint = λ s. parse_u64 (codes s);
  bytes = λ s. some (bytes_of (codes s));
}

abbrev zeros : ℕ → List ℕ → List ℕ
zeros zero w = w
zeros (suc n) w = 0 ∷ zeros n w

-- The word of a number below 65536.
abbrev word_of : ℕ → List ℕ
word_of n = zeros 30 (n / 256 ∷ n % 256 ∷ [])

abbrev words : List ℕ → List ℕ
words [] = []
words (n ∷ ns) = append (word_of n) (words ns)

-- approve(7, 100) and depositErc20(1, 5, 100, 77)
abbrev approve_100 : List ℕ
approve_100 = append approve_selector (words (7 ∷ 100 ∷ []))

abbrev deposit_100 : List ℕ
deposit_100 = append deposit_erc20_selector (words (1 ∷ 5 ∷ 100 ∷ 77 ∷ []))

-- The payer is 1, the payment address 2, the deposit's token 3, the payer's token 5, the depository 7.
abbrev want : Expected
want = record {
  user = 1;
  origin_chain_id = 10;
  origin_currency = 5;
  destination_chain_id = 8453;
  token = 3;
  recipient = 2;
  amount = 90;
  relay_roles = record {
    depositories = 7 ∷ [];
    approval_proxies = 8 ∷ [];
    receivers = [];
    routers = 9 ∷ [];
  };
  origin_decimals = 6;
  token_decimals = 6;
  origin_chain_names = "optimism" ∷ [];
  destination_chain_names = "base" ∷ [];
}

unfoldable pub currency_of : ℕ → ℕ → QuoteCurrency
unfolding hex_address
currency_of chain address = record {
  chain_id = chain;
  address = hex_address address;
  symbol = "USDC";
  name = "USD Coin";
  decimals = 6;
}

unfoldable pub transaction : ℕ → List ℕ → Value
unfolding hex_address hex_bytes
transaction to bytes = object (
    field "chainId" (number 10) (
      field "from" (string (hex_address 1)) (
        field "to" (string (hex_address to))
          (field "data" (string ("0x" ++ hex_bytes bytes)) end))))

unfoldable pub order : Value
unfolding hex_address
order = object (
    field "output"
      (object (
        field "chainId" (string "Base") (
          field "payments"
            (array (
              cons
                (object (
                  field "recipient" (string (hex_address 2)) (
                    field "currency" (string (hex_address 3))
                      (field "minimumAmount" (string "95") end))))
                nil))
            end)))
      (field "inputs"
        (array (
          cons
            (object (
              field "payment"
                (object (
                  field "currency" (string (hex_address 5))
                    (field "chainId" (number 10) (field "amount" (string "100") end))))
                (field "refunds"
                  (array (
                    cons
                      (object (
                        field "recipient" (string (hex_address 1)) (
                          field "currency" (string (hex_address 5))
                            (field "chainId" (string "10") end))))
                      nil))
                  end)))
            nil))
        end))

unfoldable pub quote : Quote
unfolding hex_address hex_bytes currency_of transaction order
quote = record {
  request_id = some ("0x" ++ hex_bytes (word_of 77));
  steps =
      record {
        id = "approve";
        description = "";
        kind = "transaction";
        items = transaction 5 approve_100 ∷ [];
      }
      ∷ record {
        id = "deposit";
        description = "";
        kind = "transaction";
        items = transaction 7 deposit_100 ∷ [];
      }
      ∷ [];
  details = record {
    sender = hex_address 1;
    recipient = hex_address 2;
    currency_in = record {
      currency = currency_of 10 5;
      amount = "100";
      amount_usd = none;
      minimum_amount = none;
    };
    currency_out = record {
      currency = currency_of 8453 3;
      amount = "95";
      amount_usd = none;
      minimum_amount = some "95";
    };
  };
  protocol = some (object (field "v2" (object (field "orderData" order end)) end));
}

abbrev amount_of : ℕ → ℕ → String → RouteAmount
unfolding hex_address
amount_of chain address amount = record {
  chain_id = chain;
  address = hex_address address;
  symbol = "USDC";
  name = "USD Coin";
  decimals = 6;
  amount = amount;
  amount_usd = none;
}

unfoldable pub route : RouteQuote
unfolding hex_address hex_bytes
route = record {
  request_id = "0x" ++ hex_bytes (word_of 77);
  origin = amount_of 10 5 "100";
  destination = amount_of 8453 3 "90";
  steps =
      record {
        id = "approve";
        description = "";
        chain_id = 10;
        to = hex_address 5;
        calldata = "0x" ++ hex_bytes approve_100;
        value = "0";
      }
      ∷ record {
        id = "deposit";
        description = "";
        chain_id = 10;
        to = hex_address 7;
        calldata = "0x" ++ hex_bytes deposit_100;
        value = "0";
      }
      ∷ [];
}

accepted : check_quote parsers want quote ≡ ok route
unfolding quote route parsers check_quote is_hex_digit entrypoint Abi.address Abi.uint decimal
accepted = refl

check_quote-bound_example :
    (input_amount : ℕ) × (base_units parsers (some quote.details.currency_in.amount)
      ≡ some input_amount)
    × ((drawn
          ((7, 60) ∷ (7, 50) ∷ [])
          (perform_all (steps_actions parsers want quote.steps) fresh)).moved
        ≤ input_amount)
    × (sum (map (λ s. value_wei parsers s.value) route.steps)
        ≤ (if want.origin_currency == 0 then input_amount else 0))
check_quote-bound_example =
    check_quote-bound parsers want quote route ((7, 60) ∷ (7, 50) ∷ []) accepted

check_quote-Honours_example :
    (input_amount : ℕ) × Details parsers want quote.details input_amount
    × (order : Value) × (order_data quote.protocol ≡ some order)
    × Honours parsers want input_amount order
check_quote-Honours_example = check_quote-Honours parsers want quote route accepted

check_quote-last_example :
    (init : List Value) × (last : Value) × (all_items quote.steps ≡ append init (last ∷ []))
    × All (λ v. is_approval parsers want v ≡ true) init
    × (is_approval parsers want last ≡ false)
check_quote-last_example = check_quote-last parsers want quote route accepted

check_quote-Sent_example :
    (input_amount : ℕ) × (base_units parsers (some quote.details.currency_in.amount)
      ≡ some input_amount)
    × All (Sent parsers want input_amount) (all_items quote.steps)
check_quote-Sent_example = check_quote-Sent parsers want quote route accepted

-- The tab of an approval that is drawn on, renewed and drawn on again.
abbrev two_draws : List Action
two_draws = approve 7 100 ∷ draw 7 40 ∷ approve 7 80 ∷ draw 7 30 ∷ []

two_draws-exposure : exposure (tally_all two_draws no_spend) ≡ ok 120
unfolding exposure exposure_from grant set_slot slot
two_draws-exposure = refl

-- A pull of 100 through the approval proxy 8, whose nested calls approve and deposit it.
abbrev padded_call : ℕ → ℕ → List ℕ → ℕ → List ℕ
padded_call target len bytes pad =
    append (words (target ∷ 0 ∷ 0 ∷ 128 ∷ len ∷ [])) (append bytes (zeros pad []))

abbrev pull_args : List ℕ
pull_args =
    append (words (160 ∷ 224 ∷ 288 ∷ 1 ∷ 1 ∷ 1 ∷ 5 ∷ 1 ∷ 100 ∷ 2 ∷ 64 ∷ 320 ∷ []))
      (append (padded_call 5 68 approve_100 28) (padded_call 7 132 deposit_100 28))

abbrev pull_call : WalletCall
pull_call = record { to = 8; calldata = append (48 ∷ 135 ∷ 80 ∷ 86 ∷ []) pull_args; value = 0 }

abbrev top : Route
top = record { want = want; input_amount = 100; depth = 0 }

pull_accepted :
    check_relay_call pull_call top (some no_spend)
    ≡ ok (some (record { pulled = 100; allowances = [] }))
unfolding check_relay_call split_selector entrypoint Abi.static_items Abi.address Abi.nested_calls
    token_call may_hold_allowance is_relay
pull_accepted = refl

check_relay_call-Drained_example : Drained pull_args pull_call want
unfolding split_selector entrypoint
check_relay_call-Drained_example =
    check_relay_call-Drained (48 ∷ 135 ∷ 80 ∷ 86 ∷ []) pull_args pull_call top (some no_spend)
      (some (record { pulled = 100; allowances = [] })) refl refl pull_accepted

check_relay_call-enough_example :
    relay_call (check_nested_call 5) pull_call top (some no_spend)
    ≡ check_relay_call pull_call top (some no_spend)
check_relay_call-enough_example =
    check_relay_call-enough 5 pull_call top (some no_spend) (omega arith)
