-- ===== src/Store/Rows.antt =====
-- The rows of `deposits` by primary key, under the two ways that a statement writes one.
use gum_server.Prelude.{ℕ, ◌≡◌, some, List, [], ◌∷◌, arith, ◌==◌, if◌then◌else◌}
use gum_server.Deposit.{Deposit}
use gum_server.Store.Db.{row, replace}

-- A row is found under its own key.
pub row_id : (id : ℕ) (ds : List Deposit) (d : Deposit) → row id ds ≡ some d → d.id ≡ id
unfolding row
row_id id [] d h = cc
row_id id (x ∷ ds) d h = ground (arith, row_id id ds d)

-- Replacing a row by one of the same key changes that row alone, and only where there is one.
pub row-replace :
    (id j : ℕ) (new old : Deposit) (ds : List Deposit)
    → new.id ≡ id
    → row id ds ≡ some old
    → row j (replace id new ds) ≡ (if id == j then some new else row j ds)
unfolding row replace
row-replace id j new old [] e h = cc
row-replace id j new old (x ∷ ds) e h = ground (arith, row-replace id j new old ds e)
