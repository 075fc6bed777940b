-- ===== src/Relay/Honoured.antt =====
-- src/deposit/relay.rs, `check_order`: what a signed order that is accepted says.
use gum_server.Prelude.{
  ℕ, ◌+◌, ◌≤◌, ◌≡◌, ◌≢◌, refl, ap, ◌∙◌, true, not, Option, none, some, List, [], ◌∷◌, map, All,
  ◌==◌, ltb, length, arith, unwrap_or, is_some,
}
use gum_server.Prelude.Json.{Value, get_value}
use gum_server.Relay.{Expected}
use gum_server.Prelude.Refusals.{
  ok, checked_add, sum, >>=-ok, ensure-ok, or_refuse->>=-ok, checked_add-ok,
}
use gum_server.Relay.Terms.{Parsers, str_of, as_array, text_of, same_address, base_units, is_chain}
use gum_server.Relay.Order.{
  minimum, pays_recipient, check_payments, refunds_home, check_refunds, input_payment, check_input,
  check_inputs, check_order,
}

module _ (px : Parsers) (want : Expected) where
  -- A payment to the payment address in the deposit's token, with a guarantee.
  pub record IsPayment (p : Value) : Type 0 where
    pub pays : pays_recipient px want p ≡ true
    pub guarantees : is_some (minimum px want p) ≡ true

  abbrev pub least : Value → ℕ
  least p = unwrap_or (minimum px want p) 0

  check_payments-IsPayment :
      (ps : List Value) (total : ℕ) {n : ℕ}
      → check_payments px want ps total ≡ ok n
      → All IsPayment ps × (n ≡ total + sum (map least ps))
  unfolding check_payments
  check_payments-IsPayment [] total h = (tt, ground arith)
  check_payments-IsPayment (p ∷ ps) total h =
      let (e1, h1) = ensure-ok (pays_recipient px want p) _ _ h in
      let (a, e2, h2) = or_refuse->>=-ok (minimum px want p) _ _ h1 in
      let (t, e3, h3) = or_refuse->>=-ok (checked_add total a) _ _ h2 in
      let (all, e4) = check_payments-IsPayment ps t h3 in
      (
        (record { pays = e1; guarantees = rw e2 refl }, all),
        ground (arith, e2, e4, checked_add-ok total a e3),
      )

  -- What an input takes from the payer.
  abbrev paid_amount : Option Value → Option ℕ
  paid_amount none = none
  paid_amount (some p) = base_units px (str_of (get_value "amount" p))

  abbrev pub takes : Value → Option ℕ
  takes input = paid_amount (input_payment px want input)

  -- An input in what the payer chose, on the origin chain, whose refunds go home.
  pub record IsInput (input : Value) : Type 0 where
    pub payment : Value
    pub payment_ok : input_payment px want input ≡ some payment
    pub currency : same_address px (text_of "currency" payment) want.origin_currency ≡ true
    pub chain :
        is_chain (get_value "chainId" payment) want.origin_chain_id want.origin_chain_names ≡ true
    pub has_amount : is_some (takes input) ≡ true
    pub refunds : List Value
    pub refunds_ok : as_array (get_value "refunds" input) ≡ some refunds
    pub some_refund : refunds ≢ []
    pub home : All (λ r. refunds_home px want r ≡ true) refunds

  check_refunds-home :
      (rs : List Value)
      → check_refunds px want rs ≡ ok tt
      → All (λ r. refunds_home px want r ≡ true) rs
  unfolding check_refunds
  check_refunds-home [] h = tt
  check_refunds-home (r ∷ rs) h =
      let (e, h1) = ensure-ok (refunds_home px want r) _ _ h in (e, check_refunds-home rs h1)

  nonempty : (vs : List Value) → not (length vs == 0) ≡ true → vs ≢ []
  nonempty [] h = ground arith
  nonempty (v ∷ vs) h = ground arith

  check_input-IsInput :
      (input : Value) (taken : ℕ) {n : ℕ}
      → check_input px want input taken ≡ ok n
      → IsInput input × (n ≡ taken + unwrap_or (takes input) 0)
  unfolding check_input
  check_input-IsInput input taken h =
      let (payment, e1, h1) = or_refuse->>=-ok (input_payment px want input) _ _ h in
      let (e2, h2) =
        ensure-ok (same_address px (text_of "currency" payment) want.origin_currency) _ _ h1 in
      let (e3, h3) =
        ensure-ok
          (is_chain (get_value "chainId" payment) want.origin_chain_id want.origin_chain_names) _ _
          h2 in
      let (a, e4, h4) =
        or_refuse->>=-ok (base_units px (str_of (get_value "amount" payment))) _ _ h3 in
      let (t, e5, h5) = or_refuse->>=-ok (checked_add taken a) _ _ h4 in
      let (refunds, e6, h6) = or_refuse->>=-ok (as_array (get_value "refunds" input)) _ _ h5 in
      let (e7, h7) = ensure-ok (not (length refunds == 0)) _ _ h6 in
      let (u, e8, h8) = >>=-ok (check_refunds px want refunds) _ h7 in
      let takes_a : takes input ≡ some a = ap paid_amount e1 ∙ e4 in
      (
        record {
          payment = payment;
          payment_ok = e1;
          currency = e2;
          chain = e3;
          has_amount = ap is_some takes_a;
          refunds = refunds;
          refunds_ok = e6;
          some_refund = nonempty refunds e7;
          home = check_refunds-home refunds e8;
        },
        ground (arith, h8, takes_a, checked_add-ok taken a e5),
      )

  check_inputs-IsInput :
      (is : List Value) (taken : ℕ) {n : ℕ}
      → check_inputs px want is taken ≡ ok n
      → All IsInput is × (n ≡ taken + sum (map (λ i. unwrap_or (takes i) 0) is))
  unfolding check_inputs
  check_inputs-IsInput [] taken h = (tt, ground arith)
  check_inputs-IsInput (i ∷ is) taken h =
      let (t, e1, h1) = >>=-ok (check_input px want i taken) _ h in
      let (p, e2) = check_input-IsInput i taken e1 in
      let (all, e3) = check_inputs-IsInput is t h1 in ((p, all), omega (arith, e2, e3))

  -- The order settles on the deposit's chain and pays it at least the amount, and takes the input.
  pub record Honours (input_amount : ℕ) (order : Value) : Type 0 where
    pub output : Value
    pub output_ok : get_value "output" order ≡ some output
    pub settles :
        is_chain (get_value "chainId" output) want.destination_chain_id want.destination_chain_names
        ≡ true
    pub payments : List Value
    pub payments_ok : as_array (get_value "payments" output) ≡ some payments
    pub all_pay : All IsPayment payments
    pub enough : want.amount ≤ sum (map least payments)
    pub inputs : List Value
    pub inputs_ok : as_array (get_value "inputs" order) ≡ some inputs
    pub all_take : All IsInput inputs
    pub exact : sum (map (λ i. unwrap_or (takes i) 0) inputs) ≡ input_amount

  -- An order that is accepted honours the terms: it settles on the deposit's chain, each payment is to
  -- the payment address in the deposit's token with a guarantee, and the guarantees sum up to at least
  -- the amount; each input is of the payer's currency on the origin chain with all of its refunds going
  -- to the payer or to the payment address, and the inputs sum up to the quoted input.
  pub check_order-Honours :
      (order : Value) (input_amount : ℕ)
      → check_order px want order input_amount ≡ ok tt
      → Honours input_amount order
  unfolding check_order
  check_order-Honours order input_amount h =
      let (output, e1, h1) = or_refuse->>=-ok (get_value "output" order) _ _ h in
      let (payments, e2, h2) = or_refuse->>=-ok (as_array (get_value "payments" output)) _ _ h1 in
      let (e3, h3) = ensure-ok (not (length payments == 0)) _ _ h2 in
      let (e4, h4) =
        ensure-ok
          (is_chain (get_value "chainId" output) want.destination_chain_id
            want.destination_chain_names)
          _ _ h3 in
      let (total, e5, h5) = >>=-ok (check_payments px want payments 0) _ h4 in
      let (e6, h6) = ensure-ok (not (ltb total want.amount)) _ _ h5 in
      let (inputs, e7, h7) = or_refuse->>=-ok (as_array (get_value "inputs" order)) _ _ h6 in
      let (e8, h8) = ensure-ok (not (length inputs == 0)) _ _ h7 in
      let (taken, e9, h9) = >>=-ok (check_inputs px want inputs 0) _ h8 in
      let (paid, e10) = check_payments-IsPayment payments 0 e5 in
      let (took, e11) = check_inputs-IsInput inputs 0 e9 in
      record {
        output = output;
        output_ok = e1;
        settles = e4;
        payments = payments;
        payments_ok = e2;
        all_pay = paid;
        enough = ground (arith, e6, e10);
        inputs = inputs;
        inputs_ok = e7;
        all_take = took;
        exact = ground (arith, h9, e11);
      }
