-- ===== src/Relay/Shape.antt =====
-- src/deposit/relay.rs, `check_quote` and `check_step`: the shape of an accepted route.
use gum_server.Prelude.{
  ℕ, ◌≡◌, refl, sym, ap, Bool, true, false, not, List, [], ◌∷◌, append, arith, str_eq, All,
}
use gum_server.Prelude.Json.{Value}
use gum_server.Relay.{Expected}
use gum_server.Prelude.Refusals.{ok, >>=-ok, ensure-ok}
use gum_server.Relay.Terms.{Parsers}
use gum_server.Relay.Quote.{all_items, Quote, QuoteStep, RouteQuote, Progress, no_progress}
use gum_server.Relay.Steps.{check_step, is_approval, check_items, check_steps}
use gum_server.Relay.Checks.{check_quote}
use gum_server.Relay.Accepted.{check_route-RouteOk, check_quote-QuoteOk}

module _ (px : Parsers) (want : Expected) where
  -- Items until the payment is funded: none follows one that funds it.
  Follows : Bool → List Value → Bool → Type 0
  Follows funded [] after = funded ≡ after
  Follows funded (v ∷ vs) after = (funded ≡ false) × Follows (not (is_approval px want v)) vs after

  Follows-append :
      (vs ws : List Value) (a b c : Bool)
      → Follows a vs b
      → Follows b ws c
      → Follows a (append vs ws) c
  unfolding Follows
  Follows-append [] ws a b c h k = rw h k
  Follows-append (v ∷ vs) ws a b c (e, h) k =
      (e, Follows-append vs ws (not (is_approval px want v)) b c h k)

  items-Follows :
      (step : QuoteStep) (input_amount : ℕ) (items : List Value) (p p' : Progress)
      → check_items px want step input_amount items p ≡ ok p'
      → Follows p.funded items p'.funded
  unfolding check_items Follows
  items-Follows step input_amount [] p p' h = cc h
  items-Follows step input_amount (v ∷ vs) p p' h =
      let (e1, h1) = ensure-ok (not p.funded) _ _ h in
      let (r, e2, h2) = >>=-ok (check_step px want step v input_amount p.spend) _ h1 in
      (ground (arith, e1), items-Follows step input_amount vs _ p' h2)

  steps-Follows :
      (input_amount : ℕ) (steps : List QuoteStep) (p p' : Progress)
      → check_steps px want input_amount steps p ≡ ok p'
      → Follows p.funded (all_items steps) p'.funded
  unfolding check_steps Follows
  steps-Follows input_amount [] p p' h = cc h
  steps-Follows input_amount (step ∷ steps) p p' h =
      let (e1, h1) = ensure-ok (str_eq step.kind "transaction") _ _ h in
      let (q, e2, h2) = >>=-ok (check_items px want step input_amount step.items p) _ h1 in
      Follows-append step.items (all_items steps) p.funded q.funded p'.funded
        (items-Follows step input_amount step.items p q e2)
        (steps-Follows input_amount steps q p' h2)

  Follows-last :
      (vs : List Value) (a : Bool)
      → a ≡ false
      → Follows a vs true
      → (init : List Value) × (last : Value) × (vs ≡ append init (last ∷ []))
        × All (λ v. is_approval px want v ≡ true) init
        × (is_approval px want last ≡ false)
  unfolding Follows
  Follows-last [] a e h = ground (arith, e, h)
  Follows-last (v ∷ []) a e (e1, h) = ([], v, refl, tt, ground (arith, h))
  Follows-last (v ∷ w ∷ ws) a e (e1, h) =
      let (init, last, eq, all, l) = Follows-last (w ∷ ws) (not (is_approval px want v)) h.0 h in
      (v ∷ init, last, ap (λ vs. v ∷ vs) eq, (ground (arith, h.0), all), l)

  -- An accepted route ends at its funding transaction: it has a last transaction, which is no approval
  -- of the payer's token, and every one before it is such an approval.
  pub check_quote-last :
      (quote : Quote) (r : RouteQuote)
      → check_quote px want quote ≡ ok r
      → (init : List Value) × (last : Value) × (all_items quote.steps ≡ append init (last ∷ []))
        × All (λ v. is_approval px want v ≡ true) init
        × (is_approval px want last ≡ false)
  check_quote-last quote r h =
      let q = check_quote-QuoteOk px want quote r h in
      let c = check_route-RouteOk px want quote q.input_amount r.steps q.route_ok in
      Follows-last (all_items quote.steps) false refl (
        rw (sym c.is_funded)
          (steps-Follows q.input_amount quote.steps no_progress c.progress c.progress_ok))
