-- ===== src/Relay/Wallet.antt =====
-- What the calls of a route do to the payer's wallet in the token it pays with, by the rules of ERC-20:
-- the description that `Spend` of src/deposit/relay.rs is held against.
use gum_server.Prelude.{ℕ, ◌+◌, ◌-◌, Option, none, some, List, [], ◌∷◌, ◌==◌, leb, if◌then◌else◌}

-- An allowance that replaces the spender's, a spender's draw, a transfer.
pub data Action : Type 0 where
  approve draw : ℕ → ℕ → Action
  send : ℕ → Action

pub record Wallet : Type 0 where
  pub moved : ℕ
  pub allowance : ℕ → ℕ

-- Nothing has left, and nobody holds an allowance.
abbrev pub fresh : Wallet
fresh = record { moved = 0; allowance = λ k. 0 }

abbrev pub with_allowance : ℕ → ℕ → Wallet → Wallet
with_allowance spender amount w = record w {
  allowance = λ k. if spender == k then amount else w.allowance k;
}

-- A draw beyond the allowance reverts.
unfoldable pub perform : Action → Wallet → Option Wallet
perform (approve spender amount) w = some (with_allowance spender amount w)
perform (send amount) w = some (record w { moved = w.moved + amount })
perform (draw spender amount) w =
    if leb amount (w.allowance spender)
    then some (
        with_allowance spender (w.allowance spender - amount)
          (record w { moved = w.moved + amount }))
    else none

-- A route ends at the first action that reverts.
unfoldable pub perform_all : List Action → Wallet → Wallet
unfolding perform
perform_all [] w = w
perform_all (a ∷ acts) w = elim (perform a w) [ none ↦ w | some w' ↦ perform_all acts w' ]

-- What spenders try to draw afterwards: those that revert change nothing.
unfoldable pub drawn : List (ℕ × ℕ) → Wallet → Wallet
unfolding perform
drawn [] w = w
drawn ((spender, amount) ∷ ds) w = elim (perform (draw spender amount) w) [
  | none ↦ drawn ds w
  | some w' ↦ drawn ds w'
]
