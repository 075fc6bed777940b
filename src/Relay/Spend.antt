-- ===== src/Relay/Spend.antt =====
-- src/deposit/relay.rs, `Spend`: what a route may yet take from the payer's wallet in the token it
-- quoted. Amounts per address are association lists, for `BTreeMap`s that are summed or looked up.
use gum_server.Prelude.{
  ℕ, ◌-◌, Option, none, some, List, [], ◌∷◌, ◌==◌, leb, ltb, if◌then◌else◌, unwrap_or,
}
use gum_server.Prelude.Refusals.{Checked, ok, ◌>>=◌, or_refuse, checked_add}

abbrev pub Slots : Type 0
Slots = List (ℕ × ℕ)

unfoldable pub slot : ℕ → Slots → Option ℕ
slot k [] = none
slot k ((j, v) ∷ m) = if j == k then some v else slot k m

unfoldable pub set_slot : ℕ → ℕ → Slots → Slots
set_slot k v [] = (k, v) ∷ []
set_slot k v ((j, w) ∷ m) =
    let rest = set_slot k v m in if j == k then (j, v) ∷ m else (j, w) ∷ rest

-- `entry(k).or_default()`
abbrev pub slot_or_0 : ℕ → Slots → ℕ
slot_or_0 k m = unwrap_or (slot k m) 0

pub record Spend : Type 0 where
  pub pulled : ℕ
  pub allowances : Slots

abbrev pub no_spend : Spend
no_spend = record { pulled = 0; allowances = [] }

abbrev pub larger : ℕ → ℕ → ℕ
larger a b = if ltb b a then a else b

abbrev pub smaller : ℕ → ℕ → ℕ
smaller a b = if leb a b then a else b

-- `Spend::grant`
unfoldable pub grant : ℕ → ℕ → Spend → Spend
unfolding slot set_slot
grant spender amount s = record s {
  allowances = set_slot spender (larger amount (slot_or_0 spender s.allowances)) s.allowances;
}

abbrev pub draw_down : ℕ → ℕ → Slots → Slots
draw_down spender amount m = elim (slot spender m) [
  | none ↦ m
  | some v ↦ set_slot spender (v - smaller v amount) m
]

-- `Spend::transfer`
unfoldable pub transfer : ℕ → Spend → Checked Spend
transfer amount s = do
  pulled ← or_refuse (checked_add s.pulled amount) "the route's token spending overflows"
  ok (record s { pulled = pulled })

-- `Spend::pull`
unfoldable pub pull : ℕ → ℕ → Spend → Checked Spend
unfolding slot set_slot transfer
pull spender amount s =
    transfer amount (record s { allowances = draw_down spender amount s.allowances })

unfoldable pub exposure_from : ℕ → Slots → Checked ℕ
exposure_from sum [] = ok sum
exposure_from sum ((k, v) ∷ m) = do
  next ← or_refuse (checked_add sum v) "the route's token spending overflows"
  exposure_from next m

-- `Spend::exposure`
unfoldable pub exposure : Spend → Checked ℕ
unfolding exposure_from
exposure s = exposure_from s.pulled s.allowances
