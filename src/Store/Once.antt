-- ===== src/Store/Once.antt =====
-- A threshold that is reported twice, by the webhook and by the reconciler.
use gum_server.Prelude.{ℕ, ◌≡◌, refl, Bool, true, false, none, some}
use gum_server.Prelude.Json.{Value}
use gum_server.Deposit.{Deposit}
use gum_server.Deposit.Status.{is_open}
use gum_server.Store.Db.{Db, ok, ◌>>=◌, row, update_row, update_deposit}
use gum_server.Store.Numbering.{Numbered}
use gum_server.Store.Recorded.{bumped}
use gum_server.Store.Transitions.{apply_threshold_reached}
use gum_server.Store.Effects.{paid_row, threshold_reached}

update_deposit-none :
    (id : ℕ) (guard : Deposit → Bool) (set : ℕ → Deposit → Deposit) (db : Db) (d : Deposit)
    → row id db.deposits ≡ some d
    → guard d ≡ false
    → update_deposit id guard set db ≡ ok none db
unfolding update_deposit update_row
update_deposit-none id guard set db d found g = rw (found, update_deposit, update_row) (rw g refl)

threshold_late :
    (id confirmed : ℕ) (v : Value) (db : Db) (d : Deposit)
    → row id db.deposits ≡ some d
    → is_open d.status ≡ false
    → apply_threshold_reached id confirmed v db ≡ ok none db
unfolding apply_threshold_reached
threshold_late id confirmed v db d found h =
    rw
      (
        update_deposit-none id (λ d. is_open d.status) _ db d found h,
        apply_threshold_reached,
        ◌>>=◌,
      )
      refl

-- On a numbered timeline the threshold of an open deposit makes it paid once: when it is reported
-- again, with any total, nothing is changed, so that no second `execute` is queued.
pub threshold_once :
    (id confirmed again : ℕ) (v w : Value) (db : Db) (d : Deposit)
    → Numbered db.deposits db.timeline
    → row id db.deposits ≡ some d
    → is_open d.status ≡ true
    → (db' : Db) × (apply_threshold_reached id confirmed v db
        ≡ ok (some (paid_row confirmed db.now d)) db')
      × (apply_threshold_reached id again w db' ≡ ok none db')
threshold_once id confirmed again v w db d numbered found h =
    let (db', applied, at, _, _, _, _, _, _, _) =
      threshold_reached id db d v numbered found confirmed h in
    (db', applied, threshold_late id again w db' (bumped (paid_row confirmed db.now d)) at refl)
