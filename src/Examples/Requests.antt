-- ===== src/Examples/Requests.antt =====
-- Runs of the validation of requests at a concrete request, and of a deposit that is created by it.
use gum_server.Prelude.{
  ◌+◌, ◌≡◌, refl, true, false, none, some, [], ◌∷◌, str_eq, if◌then◌else◌, arith,
}
use gum_server.Prelude.Json.{number, string}
use gum_server.Prelude.Ascii.{codes, parse_u64}
use gum_server.Prelude.Refusals as Refusals
use gum_server.Deposit.{Deposit}
use gum_server.Deposit.Lifecycle.{Later}
use gum_server.Chain.Payment.{terms}
use gum_server.Chain.Registry.{Registry, from_config}
use gum_server.Webhooks.Target.{Url, domain}
use gum_server.Store.Db.{Db, row, now_v7, clock, bump_event_seq, insert_event}
use gum_server.Store.Record.{record_event, notify_app_of}
use gum_server.Store.Create.{NewDeposit, new_row, insert_new, insert_deposit, claim_optional}
use gum_server.Requests.{CreateDepositRequest, Libraries, Validator, validate}
use gum_server.Requests.Valid.{IsValid, validate-IsValid}
use gum_server.Examples.{no_codec, none_recent, empty_db}
use gum_server.System.{after_insert, run, watch_registered}
use gum_server.System.Committed.{run-Committed}

abbrev registry : Registry
registry = from_config (
    (
      "base",
      record {
        chain_id = 8453;
        enabled = true;
        tokens = record { symbol = "usdc"; address = 3; decimals = 6 } ∷ [];
      },
    )
    ∷ [])

abbrev hook : Url
hook = record {
  username = "";
  password = none;
  scheme = "https";
  host = some (domain "app.example");
  text = "https://app.example/hook";
}

abbrev lib : Libraries
lib = record {
  address = λ s. if str_eq s "0x21" then some 33 else none;
  uint = λ s. parse_u64 (codes s);
  hash = λ s. none;
  url = λ s. if str_eq s "https://app.example/hook" then some hook else none;
  checksum = λ a. "";
  transfer_calldata = λ to amount. to ∷ amount ∷ [];
  implementation = λ f. f + 1;
  payment_address = λ t f. t.token + t.amount + t.expiration_timestamp + t.salt + f;
}

abbrev validator : Validator
validator = record {
  registry = registry;
  min_expiry_lead_secs = 60;
  max_expiry_secs = 3600;
  allow_insecure_targets = false;
  factory = 1000;
  recovery = 44;
}

abbrev request : CreateDepositRequest
request = record {
  chain_id = number 8453;
  token = " USDC";
  amount = string "250";
  receiver = "0x21 ";
  expires_at = 700_500;
  reference = none;
  webhook_url = some "https://app.example/hook";
}

abbrev new : NewDeposit
new = record {
  chain_id = 8453;
  token_symbol = "USDC";
  token_address = 3;
  token_decimals = 6;
  amount = 250;
  receiver = 33;
  calls = record { target = 3; calldata = 33 ∷ 250 ∷ [] } ∷ [];
  recovery = 44;
  salt = 7;
  expires_at = 700_000;
  payment_address = 1960;
  reference = none;
  webhook_url = some "https://app.example/hook";
}

validated : validate lib validator request 500_000 7 ≡ Refusals.ok new
unfolding validate from_config
validated = refl

validate-IsValid_example : IsValid lib validator request 500_000 7 new
validate-IsValid_example =
    validate-IsValid lib validator request 500_000 7 new (omega arith) validated

abbrev stored : Deposit
stored = new_row 100 "app" new 5_000

abbrev stored_db : Db
stored_db = after_insert empty_db (insert_new "app" new none empty_db)

run-Committed_example :
    (e : Deposit) × (row 100
        (run no_codec none_recent (watch_registered 100 31 ∷ []) stored_db).deposits
      ≡ some e)
    × Later stored e
    × (e.payment_address ≡ lib.payment_address (terms e) 1000)
unfolding insert_new now_v7 clock insert_deposit row claim_optional record_event bump_event_seq
    insert_event notify_app_of
run-Committed_example =
    run-Committed lib validator request 500_000 7 "app" new none empty_db stored_db stored no_codec
      none_recent (watch_registered 100 31 ∷ []) (omega arith) validated refl
