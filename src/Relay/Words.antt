-- ===== src/Relay/Words.antt =====
-- src/deposit/relay.rs, `Abi` and `check_nested_call`: the amount that is read of a deposit at a fixed
-- place is the one that its arguments decode to.
use gum_server.Prelude.{
  ℕ, suc, ◌+◌, ◌≡◌, refl, sym, ap, ◌∙◌, Option, none, some, List, [], ◌∷◌, leb, length, arith,
  if◌then◌else◌, take,
}
use gum_server.Prelude.Refusals.{checked_usize}
use gum_server.Relay.Abi.{Abi, at_start, slice, skip, from_be, word, address, uint, lift, >>=-some}
use gum_server.Relay.Selectors.{split_selector}
use gum_server.Relay.Entrypoints.{DepositArgs, deposit_args}
use gum_server.Relay.Nested.{word_from}

-- A word that is read, and where the reader is behind it.
IsWord : List ℕ → Abi → Abi → Type 0
IsWord w r r' =
    (slice r.pos (r.pos + 32) r.bytes ≡ some w) × (r'.bytes ≡ r.bytes) × (r'.pos ≡ r.pos + 32)

checked_usize-some : (a b : ℕ) {c : ℕ} → checked_usize a b ≡ some c → c ≡ a + b
checked_usize-some a b h = ground (arith, h)

option-cases :
    {A B : Type 0} (o : Option A) (f : A → Option B) {b : B}
    → elim o [ none ↦ none | some a ↦ f a ] ≡ some b
    → (a : A) × (o ≡ some a) × (f a ≡ some b)
option-cases none f h = cc h
option-cases (some a) f h = (a, refl, h)

word-IsWord : (r r' : Abi) (w : List ℕ) → word r ≡ some (w, r') → IsWord w r r'
unfolding word IsWord
word-IsWord r r' w h =
    let (to, e, h1) = option-cases (checked_usize r.pos 32) _ h in
    let (v, f, h2) = option-cases (slice r.pos to r.bytes) _ h1 in
    let end_is = checked_usize-some r.pos 32 e in
    let same_word : v ≡ w = cc h2 in
    let same_reader : record r { pos = to } ≡ r' = cc h2 in
    (
      ap (λ n. slice r.pos n r.bytes) (sym end_is) ∙ f ∙ ap some same_word,
      ap (λ x. x.bytes) (sym same_reader),
      ap (λ x. x.pos) (sym same_reader) ∙ end_is,
    )

lift-same : {A : Type 0} (o : Option A) (r r' : Abi) (a : A) → lift o r ≡ some (a, r') → r ≡ r'
lift-same none r r' a h = cc h
lift-same (some b) r r' a h = cc h

address-IsWord : (r r' : Abi) (a : ℕ) → address r ≡ some (a, r') → (w : List ℕ) × IsWord w r r'
unfolding address IsWord
address-IsWord r r' a h =
    let (w, r1, e, h1) = >>=-some word _ r h in
    let (at, bytes, pos) = word-IsWord r r1 w e in
    let same : r1 ≡ r' = lift-same _ r1 r' a h1 in
    (w, (at, ap (λ x. x.bytes) (sym same) ∙ bytes, ap (λ x. x.pos) (sym same) ∙ pos))

uint-IsWord :
    (r r' : Abi) (a : ℕ) → uint r ≡ some (a, r') → (w : List ℕ) × (a ≡ from_be w) × IsWord w r r'
unfolding uint IsWord
uint-IsWord r r' a h =
    let (w, r1, e, h1) = >>=-some word _ r h in
    let (at, bytes, pos) = word-IsWord r r1 w e in
    let same : r1 ≡ r' = cc h1 in
    (w, cc h1, (at, ap (λ x. x.bytes) (sym same) ∙ bytes, ap (λ x. x.pos) (sym same) ∙ pos))

decoded :
    {d e : DepositArgs} {r r' : Abi}
    → ◌≡◌ {A = Option (DepositArgs × Abi)} (some (d, r)) (some (e, r'))
    → d ≡ e
decoded h = cc h

-- The third word of the arguments.
pub deposit_args-amount :
    (args : List ℕ) (d : DepositArgs) (behind : Abi)
    → deposit_args (at_start args) ≡ some (d, behind)
    → d.amount ≡ word_from 64 96 args
unfolding deposit_args IsWord
deposit_args-amount args d behind h =
    let (depositor, r1, e1, h1) = >>=-some address _ (at_start args) h in
    let (token, r2, e2, h2) = >>=-some address _ r1 h1 in
    let (amount, r3, e3, h3) = >>=-some uint _ r2 h2 in
    let (order_id, r4, e4, h4) = >>=-some word _ r3 h3 in
    let (w1, (at1, b1, p1)) = address-IsWord (at_start args) r1 depositor e1 in
    let (w2, (at2, b2, p2)) = address-IsWord r1 r2 token e2 in
    let (w3, is_amount, (at3, b3, p3)) = uint-IsWord r2 r3 amount e3 in
    let place : r2.pos ≡ 64 = omega (arith, p1, p2) in
    let bytes : r2.bytes ≡ args = b2 ∙ b1 in
    let at : slice 64 96 args ≡ some w3 =
      sym (ap (λ n. slice n (n + 32) r2.bytes) place ∙ ap (slice 64 96) bytes) ∙ at3 in
    let same : amount ≡ d.amount = ap (λ x. x.amount) (decoded h4) in
    sym same ∙ is_amount ∙ ap (λ o. elim o [ none ↦ 0 | some w ↦ from_be w ]) (sym at)

pub split-four :
    (a b c d : ℕ) (rest : List ℕ)
    → split_selector (a ∷ b ∷ c ∷ d ∷ rest) ≡ some (a ∷ b ∷ c ∷ d ∷ [], rest)
unfolding split_selector
split-four a b c d rest = ground arith

leb-shift : (n : ℕ) → leb 100 (suc (suc (suc (suc n)))) ≡ leb 96 n
leb-shift n = ground arith

-- The arguments stand behind the four bytes of the selector.
pub shifted :
    (bytes selector args : List ℕ)
    → split_selector bytes ≡ some (selector, args)
    → word_from 68 100 bytes ≡ word_from 64 96 args
unfolding split_selector slice
shifted [] selector args h = cc h
shifted (a ∷ []) selector args h = ground (arith, h)
shifted (a ∷ b ∷ []) selector args h = ground (arith, h)
shifted (a ∷ b ∷ c ∷ []) selector args h = ground (arith, h)
shifted (a ∷ b ∷ c ∷ d ∷ rest) selector args h =
    let same : rest ≡ args = cc (sym (split-four a b c d rest) ∙ h) in
    ap
      (λ b. elim (if b then some (take 32 (skip 64 rest)) else none) [
        | none ↦ 0
        | some w ↦ from_be w
      ])
      (leb-shift (length rest))
    ∙ ap (word_from 64 96) same
