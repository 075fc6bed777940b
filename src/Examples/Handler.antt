-- ===== src/Examples/Handler.antt =====
-- A run of the handler that quotes a route, with Relay's answers of the routes' examples.
use gum_server.Prelude.{◌≡◌, refl, true, false, none, some, [], ◌∷◌}
use gum_server.Prelude.Text.{hex_address}
use gum_server.Deposit.{Deposit}
use gum_server.Deposit.Status.{pending}
use gum_server.Relay.Abi as Abi
use gum_server.Relay.Chains.{
  RelayChain, RelayChainCurrency, RelayContracts, relay_roles, chain_names,
}
use gum_server.Relay.Handler.{QuoteBody, Relay, answered}
use gum_server.Relay.Handler as Handler
use gum_server.Relay.Offered.{Offered}
use gum_server.Examples.Routes.{parsers, quote}

-- A deposit of 100 of the token 3 on chain 8453, of which 10 are confirmed.
abbrev pub row : Deposit
row = record {
  id = 1;
  user_id = "app";
  chain_id = 8453;
  token_symbol = "USDC";
  token_address = 3;
  token_decimals = 6;
  amount = 100;
  receiver = 5;
  calls = [];
  recovery = 6;
  salt = 9;
  expires_at = 90_000_000;
  payment_address = 2;
  reference = none;
  webhook_url = none;
  status = pending;
  confirmed_amount = 10;
  watch_id = some 4;
  watch_registered_at = some 1_000;
  engine_job_id = none;
  engine_submitted_at = none;
  tx_hash = none;
  block_number = none;
  failure_code = none;
  failure_message = none;
  failure_revert_data = none;
  event_seq = 1;
  detected_at = none;
  settled_at = none;
  failed_at = none;
  expired_at = none;
  created_at = 1_000;
  updated_at = 1_000;
}

usd : RelayChainCurrency
unfolding hex_address
usd = record { address = hex_address 5; decimals = 6 }

optimism : RelayChain
unfolding hex_address usd
optimism = record {
  id = 10;
  name = "optimism";
  display_name = "";
  vm_type = "evm";
  disabled = false;
  deposit_enabled = true;
  http_rpc_url = "https://op.example";
  currency = none;
  featured_tokens = [];
  erc20_currencies = usd ∷ [];
  solver_currencies = usd ∷ [];
  contracts = some (record {
    relay_receiver = none;
    erc20_router = some (hex_address 9);
    approval_proxy = some (hex_address 8);
    v3 = none;
  });
  protocol =
      some (record { v2 = some (record { depository = some (hex_address 7); chain_id = none }) });
}

abbrev base : RelayChain
base = record {
  id = 8453;
  name = "Base";
  display_name = "";
  vm_type = "evm";
  disabled = false;
  deposit_enabled = true;
  http_rpc_url = "https://base.example";
  currency = none;
  featured_tokens = [];
  erc20_currencies = [];
  solver_currencies = [];
  contracts = none;
  protocol = none;
}

relay : Relay
unfolding optimism quote
relay = record {
  is_configured = true;
  min_time_left_secs = 60;
  probe_unlisted_tokens = true;
  may_read = true;
  may_quote_deposit = true;
  may_quote = true;
  chains = answered (optimism ∷ base ∷ []);
  search_currencies = λ id term. answered [];
  quote_of = λ q. answered quote;
}

body : QuoteBody
unfolding hex_address
body = record {
  user = hex_address 1;
  origin_chain_id = 10;
  origin_currency = hex_address 5;
  amount = "90";
}

-- A router that is listed twice is one router; the proxies come in order.
twice_listed_test :
    let k : RelayContracts = record {
      relay_receiver = none;
      erc20_router = some (hex_address 9);
      approval_proxy = some (hex_address 8);
      v3 =
          some
            (record { erc20_router = some (hex_address 9); approval_proxy = some (hex_address 6) });
    } in
    let roles = relay_roles parsers (record optimism { contracts = some k }) in
    (roles.routers ≡ 9 ∷ []) × (roles.approval_proxies ≡ 6 ∷ 8 ∷ [])
unfolding hex_address relay_roles optimism parsers
twice_listed_test = (refl, refl)

names_test : chain_names (record optimism { display_name = "Optimism" }) ≡ "optimism" ∷ []
unfolding chain_names optimism
names_test = refl
