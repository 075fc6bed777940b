-- ===== src/Requests/Valid.antt =====
-- src/deposit/request.rs: what a validated request is.
use mathlib.Core.Path.{subst}
use gum_server.Prelude.{
  ℕ, ◌+◌, ◌*◌, ◌/◌, ◌≤◌, ◌<◌, String, ◌≡◌, ◌≢◌, refl, sym, ap, ◌∙◌, true, ◌&&◌, ◌||◌, not, Option,
  none, some, [], ◌∷◌, ◌==◌, str_eq, leb, if◌then◌else◌, arith, Bool-cases, inl, inr,
}
use gum_server.Prelude.Json.{Value}
use gum_server.Prelude.Ascii.{codes, all_digits, byte_length, trim}
use gum_server.Prelude.Refusals.{ok, >>=-ok, ensure-ok, or_refuse->>=-ok, ok-inj}
use gum_server.Chain.Registry.{ChainSpec, TokenSpec, chain, token}
use gum_server.Chain.Payment.{PaymentTerms}
use gum_server.Store.Create.{NewDeposit}
use gum_server.Requests.{
  CreateDepositRequest, Libraries, Validator, chain_text, amount_text, enabled_only, find_enabled,
  parse_amount, parse_address, is_mixed, is_payment_contract, lead_below, lead_above,
  parse_reference, parse_webhook_url, terms_of, validate,
}

enabled_only-some :
    (o : Option ChainSpec) {c : ChainSpec}
    → enabled_only o ≡ some c
    → (o ≡ some c) × (c.enabled ≡ true)
enabled_only-some none h = cc h
enabled_only-some (some d) {c} h = elim (Bool-cases d.enabled) [
  | inl e ↦
      let k : some d ≡ some c = ap (λ b. if b then some d else none) (sym e) ∙ h in
      let same : d ≡ c = cc k in (k, ap (λ x. x.enabled) (sym same) ∙ e)
  | inr e ↦ let k : none ≡ some c = ap (λ b. if b then some d else none) (sym e) ∙ h in cc k
]

ne_of : (a b : ℕ) → not (a == b) ≡ true → a ≢ b
ne_of a b h = ground arith

none_of : (a b c d : ℕ) → not (a == b || a == c || a == d) ≡ true → (a ≢ b) × (a ≢ c) × (a ≢ d)
none_of a b c d h = (ground arith, ground arith, ground arith)

lead-not_soon :
    (secs e now : ℕ) → 0 < secs → not (lead_below secs e now) ≡ true → now + secs * 1000 ≤ e
unfolding lead_below
lead-not_soon secs e now p h = ground arith

lead-not_late : (secs e now : ℕ) → not (lead_above secs e now) ≡ true → e < now + secs * 1000 + 1000
unfolding lead_above
lead-not_late secs e now h = ground arith

-- The terms of a deposit that is to be stored, as they are read back from its row.
abbrev pub new_terms : NewDeposit → PaymentTerms
new_terms new = record {
  token = new.token_address;
  amount = new.amount;
  calls = new.calls;
  expiration_timestamp = new.expires_at / 1000;
  recovery = new.recovery;
  salt = new.salt;
  chain_id = new.chain_id;
}

module _ (lib : Libraries) where
  parse_amount-pos : (value : Value) (n : ℕ) → parse_amount lib value ≡ ok n → 0 < n
  unfolding parse_amount
  parse_amount-pos value n h =
      let (text, e1, h1) = >>=-ok (amount_text value) _ h in
      let (e2, h2) = ensure-ok (not (str_eq text "") && all_digits (codes text)) _ _ h1 in
      let (e3, h3) = ensure-ok (leb (byte_length text) 78) _ _ h2 in
      let (a, e4, h4) = or_refuse->>=-ok (lib.uint text) _ _ h3 in
      let (e5, h5) = ensure-ok (not (a == 0)) _ _ h4 in ground (arith, e5, h5)

  parse_address-nonzero : (raw : String) (n : ℕ) → parse_address lib raw ≡ ok n → n ≢ 0
  unfolding parse_address
  parse_address-nonzero raw n h =
      let (a, e1, h1) = or_refuse->>=-ok (lib.address (trim raw)) _ _ h in
      let (e2, h2) = ensure-ok (not (a == 0)) _ _ h1 in
      let (e3, h3) =
        ensure-ok (not (is_mixed lib (trim raw) && not (str_eq (lib.checksum a) (trim raw)))) _ _
          h2 in
      ground (arith, e2, h3)

  module _ (v : Validator) where
    -- A deposit that can be paid: on an enabled chain, in one of its tokens, for a receiver that is none
    -- of the payment system's addresses, with its lead within the limits; its address is that of the terms.
    pub record IsValid (req : CreateDepositRequest) (now salt : ℕ) (new : NewDeposit) : Type 0 where
      pub spec : ChainSpec
      pub offered : TokenSpec
      pub raw : String
      pub raw_ok : chain_text req.chain_id ≡ ok raw
      pub chain_found : chain v.registry raw ≡ some spec
      pub is_enabled : spec.enabled ≡ true
      pub token_found : token lib.address spec req.token ≡ some offered
      pub same_chain : new.chain_id ≡ spec.chain_id
      pub same_token : new.token_address ≡ offered.address
      pub same_decimals : new.token_decimals ≡ offered.decimals
      pub amount_pos : 0 < new.amount
      pub receiver_nonzero : new.receiver ≢ 0
      pub not_recovery : new.receiver ≢ v.recovery
      pub not_token : new.receiver ≢ offered.address
      pub not_factory : new.receiver ≢ v.factory
      pub not_implementation : new.receiver ≢ lib.implementation v.factory
      pub not_soon : now + v.min_expiry_lead_secs * 1000 ≤ req.expires_at
      pub not_late : req.expires_at < now + v.max_expiry_secs * 1000 + 1000
      pub whole : new.expires_at ≡ req.expires_at / 1000 * 1000
      pub committed : new.payment_address ≡ lib.payment_address (new_terms new) v.factory
      pub one_call : new.calls ≡ (
          record {
            target = offered.address;
            calldata = lib.transfer_calldata new.receiver new.amount;
          }
          ∷ [])

    -- A request that is validated, with a lead that the settings ask for, is valid: its chain is enabled,
    -- its token is of the chain, its amount is positive, its receiver is no address of the payment system,
    -- its expiry is within the limits, and its address is that of its terms, whose one call transfers the
    -- amount to the receiver.
    pub validate-IsValid :
        (req : CreateDepositRequest) (now salt : ℕ) (new : NewDeposit)
        → 0 < v.min_expiry_lead_secs
        → validate lib v req now salt ≡ ok new
        → IsValid req now salt new
    unfolding validate terms_of
    validate-IsValid req now salt new p h =
        let (raw, e1, h1) = >>=-ok (chain_text req.chain_id) _ h in
        let (c, e2, h2) = or_refuse->>=-ok (find_enabled v.registry raw) _ _ h1 in
        let (t, e3, h3) = or_refuse->>=-ok (token lib.address c req.token) _ _ h2 in
        let (amount, e4, h4) = >>=-ok (parse_amount lib req.amount) _ h3 in
        let (receiver, e5, h5) = >>=-ok (parse_address lib req.receiver) _ h4 in
        let (e6, h6) = ensure-ok (not (receiver == v.recovery)) _ _ h5 in
        let (e7, h7) = ensure-ok (not (is_payment_contract lib v receiver t)) _ _ h6 in
        let (e8, h8) =
          ensure-ok (not (lead_below v.min_expiry_lead_secs req.expires_at now)) _ _ h7 in
        let (e9, h9) = ensure-ok (not (lead_above v.max_expiry_secs req.expires_at now)) _ _ h8 in
        let (reference, e10, h10) = >>=-ok (parse_reference lib req.reference) _ h9 in
        let (url, e11, h11) = >>=-ok (parse_webhook_url lib v req.webhook_url) _ h10 in
        let (found, on) = enabled_only-some (chain v.registry raw) e2 in
        let no_contract = none_of receiver t.address v.factory (lib.implementation v.factory) e7 in
        subst (IsValid req now salt) (ok-inj h11) (record {
          spec = c;
          offered = t;
          raw = raw;
          raw_ok = e1;
          chain_found = found;
          is_enabled = on;
          token_found = e3;
          same_chain = refl;
          same_token = refl;
          same_decimals = refl;
          amount_pos = parse_amount-pos req.amount amount e4;
          receiver_nonzero = parse_address-nonzero req.receiver receiver e5;
          not_recovery = ne_of receiver v.recovery e6;
          not_token = no_contract.0;
          not_factory = no_contract.1;
          not_implementation = no_contract.2;
          not_soon = lead-not_soon v.min_expiry_lead_secs req.expires_at now p e8;
          not_late = lead-not_late v.max_expiry_secs req.expires_at now e9;
          whole = refl;
          committed = refl;
          one_call = refl;
        })
