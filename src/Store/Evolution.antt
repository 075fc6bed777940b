-- ===== src/Store/Evolution.antt =====
-- How the rows of `deposits` change over any transition: none is lost, each only moves on, and
-- its columns stay consistent with its status.
use mathlib.Core.Path.{subst}
use gum_server.Prelude.{
  ℕ, ◌≡◌, refl, ◌∙◌, Bool, true, inl, inr, some, List, arith, ◌==◌, ==_iff, Bool-cases,
}
use gum_server.Deposit.{Deposit}
use gum_server.Deposit.Lifecycle.{IsConsistent, here, next, Later, Later-trans}
use gum_server.Store.Db.{row, replace}
use gum_server.Store.Record.{enqueue}
use gum_server.Store.Rows.{row_id, row-replace}
use gum_server.Store.Recorded.{bumped, queued-frame, next_event, appended}
use gum_server.Store.Keeps.{Allowed, IsClosed, update_row-After, record_event-After}

-- Every row of the first table is in the second, later.
abbrev pub Evolves : List Deposit → List Deposit → Type 0
Evolves ds es =
    (j : ℕ) (d : Deposit) → row j ds ≡ some d → (e : Deposit) × (row j es ≡ some e) × Later d e

abbrev pub AllConsistent : List Deposit → Type 0
AllConsistent ds = (j : ℕ) (d : Deposit) → row j ds ≡ some d → IsConsistent d

module _ (id : ℕ) (new old : Deposit) (ds : List Deposit) where
  module _ (same : new.id ≡ id) (found : row id ds ≡ some old) where
    replace-Evolves :
        (origin : List Deposit)
        → Later old new
        → Evolves origin ds
        → Evolves origin (replace id new ds)
    replace-Evolves origin later h j d e =
        let (now, at, past) = h j d e in
        elim (Bool-cases (id == j)) [
          | inl eq ↦
              let hit : old ≡ now = cc ((==_iff id j).0 eq) in
              (
                new,
                rw (row-replace id j new old ds same found, eq) refl,
                Later-trans past (subst (λ x. Later x new) hit later),
              )
          | inr ne ↦ (now, rw (row-replace id j new old ds same found, ne) at, past)
        ]

    replace-AllConsistent : IsConsistent new → AllConsistent ds → AllConsistent (replace id new ds)
    replace-AllConsistent c h j d e = elim (Bool-cases (id == j)) [
      | inl eq ↦
          let hit : new ≡ d = ground (arith, row-replace id j new old ds same found) in
          subst IsConsistent hit c
      | inr ne ↦ h j d (ground (arith, row-replace id j new old ds same found))
    ]

-- An allowed UPDATE and a new event both move a row on.
module _ {guard : Deposit → Bool} {set : ℕ → Deposit → Deposit} (a : Allowed guard set) where
  Allowed-Later : (now : ℕ) (d : Deposit) → guard d ≡ true → Later d (set now d)
  Allowed-Later now d h = record {
    moved = next here (a.edge now d h);
    grown = omega (arith, a.same_seq now d);
    kept = a.same_terms now d;
  }

bumped-Later : (d : Deposit) → Later d (bumped d)
bumped-Later d = record { moved = here; grown = omega arith; kept = refl }

bumped-IsConsistent : (d : Deposit) → IsConsistent d → IsConsistent (bumped d)
bumped-IsConsistent d c = ground arith

pub Evolves-IsClosed : (origin : List Deposit) → IsClosed (λ db. Evolves origin db.deposits)
unfolding enqueue
Evolves-IsClosed origin = record {
  update = λ id guard set a. record {
    apply = λ db h.
        update_row-After (λ x. Evolves origin x.deposits) id guard set db h
          λ old found g.
            replace-Evolves id (set db.now old) old db.deposits
              (a.same_id db.now old ∙ row_id id db.deposits old found) found origin
              (Allowed-Later a db.now old g) h;
  };
  recorded = λ d t v. record {
    apply = λ db h.
        record_event-After (λ x. Evolves origin x.deposits) d t v db
          λ old found.
            rw
              (queued-frame d (next_event d t v old db)
                (appended d (next_event d t v old db) old db)).0
              (replace-Evolves d.id (bumped old) old db.deposits (row_id d.id db.deposits old found)
                found origin (bumped-Later old) h);
  };
  enqueued = λ kind id p. record { apply = λ db h. h };
}

pub AllConsistent-IsClosed : IsClosed (λ db. AllConsistent db.deposits)
unfolding enqueue
AllConsistent-IsClosed = record {
  update = λ id guard set a. record {
    apply = λ db h.
        update_row-After (λ x. AllConsistent x.deposits) id guard set db h
          λ old found g.
            replace-AllConsistent id (set db.now old) old db.deposits
              (a.same_id db.now old ∙ row_id id db.deposits old found) found
              (a.consistent db.now old g (h id old found)) h;
  };
  recorded = λ d t v. record {
    apply = λ db h.
        record_event-After (λ x. AllConsistent x.deposits) d t v db
          λ old found.
            rw
              (queued-frame d (next_event d t v old db)
                (appended d (next_event d t v old db) old db)).0
              (replace-AllConsistent d.id (bumped old) old db.deposits
                (row_id d.id db.deposits old found) found
                (bumped-IsConsistent old (h d.id old found)) h);
  };
  enqueued = λ kind id p. record { apply = λ db h. h };
}
