-- ===== src/Relay/Tally.antt =====
-- src/deposit/relay.rs, `Spend`: its exposure bounds what leaves the wallet.
use gum_server.Prelude.{
  ℕ, ◌+◌, ◌-◌, ◌≤◌, ◌≡◌, refl, inl, inr, some, List, [], ◌∷◌, ◌==◌, if◌then◌else◌, arith,
  Option-cases,
}
use gum_server.Prelude.Refusals.{ok, or_refuse, checked_add, >>=-ok, or_refuse-ok, checked_add-ok}
use gum_server.Relay.Spend.{
  Slots, Spend, no_spend, slot, slot_or_0, set_slot, grant, draw_down, exposure_from, exposure,
  larger, smaller,
}
use gum_server.Relay.Wallet.{
  Action, approve, draw, send, Wallet, fresh, perform, perform_all, drawn,
}

-- The tab after an action, without the tests for overflow.
abbrev pub tally : Action → Spend → Spend
tally (approve spender amount) s = grant spender amount s
tally (send amount) s = record s { pulled = s.pulled + amount }
tally (draw spender amount) s = record {
  pulled = s.pulled + amount;
  allowances = draw_down spender amount s.allowances;
}

abbrev pub tally_all : List Action → Spend → Spend
tally_all [] s = s
tally_all (a ∷ acts) s = tally_all acts (tally a s)

abbrev total : Slots → ℕ
total [] = 0
total ((k, v) ∷ m) = v + total m

abbrev bound : Spend → ℕ
bound s = s.pulled + total s.allowances

slot-set_slot :
    (k j v : ℕ) (m : Slots) → slot_or_0 j (set_slot k v m) ≡ (if k == j then v else slot_or_0 j m)
unfolding slot set_slot
slot-set_slot k j v [] = ground arith
slot-set_slot k j v ((i, w) ∷ m) = ground (arith, slot-set_slot k j v m)

total-set_slot : (k v : ℕ) (m : Slots) → total (set_slot k v m) + slot_or_0 k m ≡ total m + v
unfolding slot set_slot
total-set_slot k v [] = ground arith
total-set_slot k v ((i, w) ∷ m) = ground (arith, total-set_slot k v m)

slot-draw_down :
    (k j a : ℕ) (m : Slots)
    → slot_or_0 j (draw_down k a m) ≡ (if k == j then slot_or_0 k m - a else slot_or_0 j m)
slot-draw_down k j a m = elim (Option-cases (slot k m)) [
  | inl e ↦ ground (arith, e)
  | inr (v, e) ↦ ground (arith, e, slot-set_slot k j (v - smaller v a) m)
]

-- A draw lowers the allowances by what it takes at most, and by exactly that where it is covered.
total-draw_down : (k a : ℕ) (m : Slots) → total m ≤ total (draw_down k a m) + a
total-draw_down k a m = elim (Option-cases (slot k m)) [
  | inl e ↦ ground (arith, e)
  | inr (v, e) ↦ ground (arith, e, total-set_slot k (v - smaller v a) m)
]

total-covered : (k a : ℕ) (m : Slots) → a ≤ slot_or_0 k m → total (draw_down k a m) + a ≡ total m
total-covered k a m h = elim (Option-cases (slot k m)) [
  | inl e ↦ ground (arith, e)
  | inr (v, e) ↦ ground (arith, e, total-set_slot k (v - smaller v a) m)
]

-- A wallet whose moves are on the tab, and whose allowances the tab covers.
record Backed (w : Wallet) (s : Spend) : Type 0 where
  on_tab : w.moved ≡ s.pulled
  covered : (k : ℕ) → w.allowance k ≤ slot_or_0 k s.allowances

perform-Backed :
    (a : Action) (w w' : Wallet) (s : Spend)
    → perform a w ≡ some w'
    → Backed w s
    → Backed w' (tally a s)
unfolding perform grant
perform-Backed (approve k a) w w' s h b = record {
  on_tab = ground (arith, h, b.on_tab);
  covered = λ j.
      ground (
        arith,
        h,
        b.covered j,
        slot-set_slot k j (larger a (slot_or_0 k s.allowances)) s.allowances,
      );
}
perform-Backed (send a) w w' s h b = record {
  on_tab = ground (arith, h, b.on_tab);
  covered = λ j. ground (arith, h, b.covered j);
}
perform-Backed (draw k a) w w' s h b = record {
  on_tab = ground (arith, h, b.on_tab);
  covered = λ j. ground (arith, h, b.covered j, b.covered k, slot-draw_down k j a s.allowances);
}

bound-tally : (a : Action) (s : Spend) → bound s ≤ bound (tally a s)
unfolding grant
bound-tally (approve k a) s =
    ground (arith, total-set_slot k (larger a (slot_or_0 k s.allowances)) s.allowances)
bound-tally (send a) s = omega arith
bound-tally (draw k a) s = ground (arith, total-draw_down k a s.allowances)

bound-tally_all : (acts : List Action) (s : Spend) → bound s ≤ bound (tally_all acts s)
bound-tally_all [] s = omega arith
bound-tally_all (a ∷ acts) s = omega (arith, bound-tally a s, bound-tally_all acts (tally a s))

-- A draw that the wallet allows is covered by the tab.
bound-draw :
    (k a : ℕ) (w w' : Wallet) (s : Spend)
    → perform (draw k a) w ≡ some w'
    → Backed w s
    → bound (tally (draw k a) s) ≡ bound s
unfolding perform
bound-draw k a w w' s h b =
    ground (arith, h, total-covered k a s.allowances (ground (arith, h, b.covered k)))

drawn-bound :
    (ds : List (ℕ × ℕ)) (w : Wallet) (s : Spend) → Backed w s → (drawn ds w).moved ≤ bound s
unfolding drawn
drawn-bound [] w s b = ground (arith, b.on_tab)
drawn-bound ((k, a) ∷ ds) w s b = elim (Option-cases (perform (draw k a) w)) [
  | inl e ↦ rw (e, drawn) (drawn-bound ds w s b)
  | inr (w', e) ↦
      rw (e, drawn)
        (omega (
          arith,
          drawn-bound ds w' (tally (draw k a) s) (perform-Backed (draw k a) w w' s e b),
          bound-draw k a w w' s e b,
        ))
]

-- Whatever is drawn on the allowances after a route, what has left is within the tab's bound.
performed-bound :
    (acts : List Action) (ds : List (ℕ × ℕ)) (w : Wallet) (s : Spend)
    → Backed w s
    → (drawn ds (perform_all acts w)).moved ≤ bound (tally_all acts s)
unfolding perform_all
performed-bound [] ds w s b = drawn-bound ds w s b
performed-bound (a ∷ acts) ds w s b = elim (Option-cases (perform a w)) [
  | inl e ↦ rw (e, perform_all) (omega (arith, drawn-bound ds w s b, bound-tally_all (a ∷ acts) s))
  | inr (w', e) ↦
      rw (e, perform_all) (performed-bound acts ds w' (tally a s) (perform-Backed a w w' s e b))
]

exposure_from-total : (m : Slots) (n : ℕ) {t : ℕ} → exposure_from n m ≡ ok t → t ≡ n + total m
unfolding exposure_from
exposure_from-total [] n h = ground arith
exposure_from-total ((k, v) ∷ m) n {t} h =
    let (n', e, h') = >>=-ok (or_refuse (checked_add n v) _) (λ n'. exposure_from n' m) h in
    omega
      (arith, exposure_from-total m n' h', checked_add-ok n v (or_refuse-ok (checked_add n v) _ e))

-- If the exposure of the tab that a list of actions leaves is `t`, no more than `t` leaves a wallet which
-- granted no allowance before: neither by the actions, up to the first that reverts, nor by whatever
-- draws on the allowances follow.
pub exposure-bound :
    (acts : List Action) (draws : List (ℕ × ℕ)) {t : ℕ}
    → exposure (tally_all acts no_spend) ≡ ok t
    → (drawn draws (perform_all acts fresh)).moved ≤ t
unfolding exposure
exposure-bound acts draws h = omega (
  arith,
  exposure_from-total (tally_all acts no_spend).allowances (tally_all acts no_spend).pulled h,
  performed-bound acts draws fresh no_spend (record { on_tab = refl; covered = λ k. ground arith }),
)
