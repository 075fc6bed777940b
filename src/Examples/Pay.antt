-- ===== src/Examples/Pay.antt =====
-- Runs of the payer's view: a failed event's data, and a held request that a change answers.
use gum_server.Prelude.{◌+◌, ◌≤◌, ◌<◌, ◌≡◌, ◌⊎◌, refl, [], ◌∷◌, append, some, none, arith}
use gum_server.Prelude.Json.{Fields, field, end, object, string, number, null}
use gum_server.Deposit.{Deposit, DepositEvent}
use gum_server.Deposit.Events as Events
use gum_server.Store.Db as Db
use gum_server.Pay.{next_of, ℤ, Wake, PayerView, changed, hold_for, payer_data, view, new_view}
use gum_server.Pay.Projected.{payer_data-IsShown, IsShown}
use gum_server.Pay.Polled.{hold_for-bound, view-answers, view-Shown, Shown}
use gum_server.Examples.Handler.{row}

abbrev failed_data : Fields
failed_data = field "code" (string "engine_reverted") (
    field "message" (string "internal") (
      field "tx_hash" null (
        field "transfer" (object (field "amount" (string "5") (field "extra" (number 1) end)))
          end)))

payer_data-IsShown_example :
    IsShown Events.failed
      (payer_data Events.failed (object failed_data))
      (object failed_data)
      "message"
      "amount"
payer_data-IsShown_example =
    payer_data-IsShown Events.failed (object failed_data) "message" "amount" refl

-- A transfer that is null is not shown.
null_transfer_test : payer_data Events.expired (object (field "transfer" null end)) ≡ object end
unfolding payer_data
null_transfer_test = refl

hold_for-bound_example :
    (hold_for (some (ℤ.pos 40)) 10_000 ≤ 25000)
    × ((hold_for (some (ℤ.pos 40)) 10_000 ≡ 0)
        ⊎ (hold_for (some (ℤ.pos 40)) 10_000 + 1000 ≤ 10_000))
hold_for-bound_example = hold_for-bound (some (ℤ.pos 40)) 10_000

-- The client has event 1; another deposit changes, then this one, whose second event is there.
abbrev moved : Deposit
moved = record row { event_seq = 2 }

abbrev first_wake : Wake
first_wake = record { heard = changed 99; deposits = row ∷ [] }

abbrev second_wake : Wake
second_wake = record { heard = changed 1; deposits = moved ∷ [] }

abbrev detected : DepositEvent
detected = record {
  id = 8;
  deposit_id = 1;
  sequence = 2;
  event_type = Events.detected;
  event_data = object failed_data;
  created_at = 2_000;
}

view-answers_example :
    (v : PayerView) × (view 1
        (some (ℤ.pos 1))
        (some (ℤ.pos 5))
        10_000
        (row ∷ [])
        (append (first_wake ∷ []) (second_wake ∷ []))
        (detected ∷ [])
      ≡ some v)
    × (1 < v.sequence)
unfolding Db.row hold_for next_of
view-answers_example =
    view-answers 1 1 (some (ℤ.pos 5)) 10_000 (row ∷ []) row moved (first_wake ∷ []) second_wake []
      (detected ∷ []) refl (omega arith) (refl, tt) refl refl (omega arith)

-- What is answered to the first request of a client that holds nothing.
seen :
    view 1 none none 10_000 (moved ∷ []) [] (detected ∷ []) ≡ some (new_view moved (detected ∷ []))
unfolding view new_view
seen = refl

view-Shown_example : Shown (new_view moved (detected ∷ []))
view-Shown_example =
    view-Shown 1 none none 10_000 (moved ∷ []) [] (detected ∷ []) (new_view moved (detected ∷ []))
      seen
