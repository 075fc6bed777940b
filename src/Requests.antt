-- ===== src/Requests.antt =====
-- src/deposit/request.rs: what an app asks for when it creates a deposit, and its validation. An error is
-- named by its message, or by its code where that is of its own. Libraries are parameters: the parsers,
-- checksums of addresses, the encoding of a transfer, and the address that a payment's terms hash to.

pub mod Valid
use gum_server.Prelude.{
  ℕ, ◌-◌, ◌*◌, ◌/◌, String, Bool, ◌&&◌, ◌||◌, not, Option, none, some, List, [], ◌∷◌, ◌==◌, str_eq,
  leb, ltb, if◌then◌else◌,
}
use gum_server.Prelude.Json.{Value, number, string, other_number}
use gum_server.Prelude.Ascii.{codes, trim, byte_length, all_digits, some_between, without_0x}
use gum_server.Prelude.Text.{decimal}
use gum_server.Prelude.Refusals.{Checked, ok, refuse, ◌>>=◌, ◌>>◌, ensure, or_refuse}
use gum_server.Chain.Payment.{PaymentTerms}
use gum_server.Chain.Registry.{Registry, ChainSpec, TokenSpec, chain, token}
use gum_server.Webhooks.Target.{Url, validate_target}
use gum_server.Store.Create.{NewDeposit}

pub record CreateDepositRequest : Type 0 where
  pub chain_id : Value
  pub token : String
  pub amount : Value
  pub receiver : String
  pub expires_at : ℕ
  pub reference : Option String
  pub webhook_url : Option String

pub record Libraries : Type 0 where
  pub address : String → Option ℕ
  pub uint : String → Option ℕ
  pub hash : String → Option ℕ
  pub url : String → Option Url
  pub checksum : ℕ → String
  pub transfer_calldata : ℕ → ℕ → List ℕ
  pub implementation : ℕ → ℕ
  pub payment_address : PaymentTerms → ℕ → ℕ

-- The validator, with the settings that it reads.
pub record Validator : Type 0 where
  pub registry : Registry
  pub min_expiry_lead_secs : ℕ
  pub max_expiry_secs : ℕ
  pub allow_insecure_targets : Bool
  pub factory : ℕ
  pub recovery : ℕ

-- A chain id as a text or a number.
unfoldable pub chain_text : Value → Checked String
unfolding trim decimal
chain_text (string s) = ok (trim s)
chain_text (number n) = ok (decimal n)
chain_text other = refuse "chain_id must be a chain id or slug"

unfoldable pub amount_text : Value → Checked String
unfolding trim
amount_text (string s) = ok (trim s)
amount_text (number n) = refuse "amount must be a string of base units, not a JSON number"
amount_text (other_number n) = refuse "amount must be a string of base units, not a JSON number"
amount_text other = refuse "amount must be a string of base units"

-- `lead.num_seconds() < secs`, where the difference is a signed number of seconds, rounded to zero.
unfoldable pub lead_below : ℕ → ℕ → ℕ → Bool
lead_below secs expires_at now =
    if leb now expires_at
    then ltb ((expires_at - now) / 1000) secs
    else ltb 0 secs || ltb 0 ((now - expires_at) / 1000)

-- `lead.num_seconds() > secs`
unfoldable pub lead_above : ℕ → ℕ → ℕ → Bool
lead_above secs expires_at now = ltb secs ((expires_at - now) / 1000)

-- `filter(|c| c.enabled)`
abbrev pub enabled_only : Option ChainSpec → Option ChainSpec
enabled_only none = none
enabled_only (some c) = if c.enabled then some c else none

abbrev pub find_enabled : Registry → String → Option ChainSpec
find_enabled r raw = enabled_only (chain r raw)

module _ (lib : Libraries) where
  unfoldable pub parse_amount : Value → Checked ℕ
  unfolding amount_text all_digits
  parse_amount v = do
    text ← amount_text v
    ensure (not (str_eq text "") && all_digits (codes text))
        "amount must contain only decimal digits (base units, no sign, no decimal point)"
    ensure (leb (byte_length text) 78) "amount does not fit uint256"
    amount ← or_refuse (lib.uint text) "amount does not fit uint256"
    ensure (not (amount == 0)) "amount must be greater than zero"
    ok amount

  abbrev pub is_mixed : String → Bool
  is_mixed raw =
      some_between 97 122 (codes (without_0x raw)) && some_between 65 90 (codes (without_0x raw))

  unfoldable pub parse_address : String → Checked ℕ
  unfolding trim some_between without_0x
  parse_address field = do
    address ← or_refuse (lib.address (trim field)) "receiver is not a valid EVM address"
    ensure (not (address == 0)) "receiver must not be the zero address"
    ensure (not (is_mixed (trim field) && not (str_eq (lib.checksum address) (trim field))))
        "receiver has an invalid EIP-55 checksum"
    ok address

  unfoldable pub parse_reference : Option String → Checked (Option ℕ)
  unfolding trim
  parse_reference none = ok none
  parse_reference (some raw) =
      if str_eq (trim raw) "" then ok none else elim (lib.hash (trim raw)) [
        | none ↦ refuse "reference must be a 0x-prefixed bytes32"
        | some h ↦ ok (some h)
      ]

  module _ (v : Validator) where
    unfoldable pub parse_webhook_url : Option String → Checked (Option String)
    unfolding trim validate_target
    parse_webhook_url none = ok none
    parse_webhook_url (some raw) = if str_eq (trim raw) "" then ok none else do
      url ← validate_target lib.url (trim raw) v.allow_insecure_targets
      ok (some url.text)

    -- The terms of the payment: its one call transfers the amount to the receiver.
    unfoldable pub terms_of : ChainSpec → TokenSpec → ℕ → ℕ → ℕ → ℕ → PaymentTerms
    terms_of c t amount receiver expires_at salt = record {
      token = t.address;
      amount = amount;
      calls = record { target = t.address; calldata = lib.transfer_calldata receiver amount } ∷ [];
      expiration_timestamp = expires_at / 1000;
      recovery = v.recovery;
      salt = salt;
      chain_id = c.chain_id;
    }

    abbrev pub whole_seconds : ℕ → ℕ
    whole_seconds t = t / 1000 * 1000

    abbrev pub is_payment_contract : ℕ → TokenSpec → Bool
    is_payment_contract receiver t =
        receiver == t.address || receiver == v.factory || receiver == lib.implementation v.factory

    -- `Validator::validate`, with the salt that is drawn.
    unfoldable pub validate : CreateDepositRequest → ℕ → ℕ → Checked NewDeposit
    unfolding chain_text parse_amount parse_address lead_below lead_above parse_reference
        parse_webhook_url terms_of chain token
    validate req now salt = do
      chain_raw ← chain_text req.chain_id
      c ← or_refuse (find_enabled v.registry chain_raw) "unsupported_chain"
      t ← or_refuse (token lib.address c req.token) "unsupported_token"
      amount ← parse_amount req.amount
      receiver ← parse_address req.receiver
      ensure (not (receiver == v.recovery)) "receiver must not be the recovery address"
      ensure (not (is_payment_contract receiver t))
          "receiver must not be a contract of the payment system"
      ensure (not (lead_below v.min_expiry_lead_secs req.expires_at now))
          "expires_at must be at least some seconds in the future"
      ensure (not (lead_above v.max_expiry_secs req.expires_at now))
          "expires_at must be at most some seconds in the future"
      reference ← parse_reference req.reference
      webhook_url ← parse_webhook_url req.webhook_url
      ok (record {
        chain_id = c.chain_id;
        token_symbol = t.symbol;
        token_address = t.address;
        token_decimals = t.decimals;
        amount = amount;
        receiver = receiver;
        calls = (terms_of c t amount receiver (whole_seconds req.expires_at) salt).calls;
        recovery = v.recovery;
        salt = salt;
        expires_at = whole_seconds req.expires_at;
        payment_address =
            lib.payment_address (terms_of c t amount receiver (whole_seconds req.expires_at) salt)
              v.factory;
        reference = reference;
        webhook_url = webhook_url;
      })
