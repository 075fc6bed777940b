-- ===== src/Store/Numbering.antt =====
-- The sequences of a deposit's timeline are 1, 2, …, up to its `event_seq`.
use native.Mathlib.Numerals.{add-one}
use gum_server.Prelude.{
  ℕ, zero, suc, ◌+◌, ◌<◌, ◌≡◌, refl, ap, ◌∙◌, false, Option, inl, inr, none, some, List, [], ◌∷◌,
  arith, ◌==◌, ==_iff, Bool-cases, if◌then◌else◌, any,
}
use gum_server.Deposit.{Deposit, DepositEvent}
use gum_server.Store.Db.{row, replace, same_sequence}
use gum_server.Store.Record.{enqueue}
use gum_server.Store.Rows.{row_id, row-replace}
use gum_server.Store.Recorded.{bumped, queued-frame, next_event, appended}
use gum_server.Store.Keeps.{IsClosed, update_row-After, record_event-After}

-- The sequences of a deposit, newest first.
unfoldable pub sequences : ℕ → List DepositEvent → List ℕ
sequences j [] = []
sequences j (e ∷ es) =
    let rest = sequences j es in if e.deposit_id == j then e.sequence ∷ rest else rest

unfoldable pub countdown : ℕ → List ℕ
countdown zero = []
countdown (suc n) = suc n ∷ countdown n

abbrev pub seq_of : Option Deposit → ℕ
seq_of none = 0
seq_of (some d) = d.event_seq

-- A deposit that is not there has no events.
abbrev pub Numbered : List Deposit → List DepositEvent → Type 0
Numbered ds es = (j : ℕ) → sequences j es ≡ countdown (seq_of (row j ds))

replace-seq_of :
    (id j : ℕ) (new old : Deposit) (ds : List Deposit)
    → new.id ≡ id
    → row id ds ≡ some old
    → seq_of (row j (replace id new ds)) ≡ (if id == j then new.event_seq else seq_of (row j ds))
replace-seq_of id j new old ds same found = elim (Bool-cases (id == j)) [
  | inl eq ↦ rw (row-replace id j new old ds same found, eq) refl
  | inr ne ↦ rw (row-replace id j new old ds same found, ne) refl
]

-- An UPDATE that leaves the sequence alone.
replace-Numbered :
    (id : ℕ) (new old : Deposit) (ds : List Deposit) (es : List DepositEvent)
    → new.id ≡ id
    → row id ds ≡ some old
    → new.event_seq ≡ old.event_seq
    → Numbered ds es
    → Numbered (replace id new ds) es
replace-Numbered id new old ds es same found seq h j = elim (Bool-cases (id == j)) [
  | inl eq ↦
      let p : id ≡ j = (==_iff id j).0 eq in
      h j ∙ ap countdown (cc (p, found, seq, eq, replace-seq_of id j new old ds same found))
  | inr ne ↦ h j ∙ ap countdown (cc (ne, replace-seq_of id j new old ds same found))
]

-- An event appended under the next sequence of its row.
append-Numbered :
    (e : DepositEvent) (old : Deposit) (ds : List Deposit) (es : List DepositEvent)
    → row e.deposit_id ds ≡ some old
    → e.sequence ≡ old.event_seq + 1
    → Numbered ds es
    → Numbered (replace e.deposit_id (bumped old) ds) (e ∷ es)
unfolding sequences countdown
append-Numbered e old ds es found s h j = elim (Bool-cases (e.deposit_id == j)) [
  | inl eq ↦
      let p : e.deposit_id ≡ j = (==_iff _ j).0 eq in
      let before : sequences j es ≡ countdown old.event_seq = h j ∙ ap countdown (cc (p, found)) in
      rw
        (
          replace-seq_of e.deposit_id j (bumped old) old ds (row_id e.deposit_id ds old found)
              found,
          eq,
          s,
          before,
          add-one,
        )
        refl
  | inr ne ↦
      rw
        (
          replace-seq_of e.deposit_id j (bumped old) old ds (row_id e.deposit_id ds old found)
              found,
          ne,
        )
        (h j)
]

-- The next sequence of a numbered timeline is free.
countdown_free : (n m : ℕ) → n < m → any (λ s. s == m) (countdown n) ≡ false
unfolding countdown
countdown_free zero m h = refl
countdown_free (suc n) m h = ground (arith, countdown_free n m)

any-sequences :
    (j m : ℕ) (es : List DepositEvent)
    → any (same_sequence j m) es ≡ any (λ s. s == m) (sequences j es)
unfolding sequences
any-sequences j m [] = refl
any-sequences j m (e ∷ es) = ground (arith, any-sequences j m es)

pub next_free :
    (ds : List Deposit) (es : List DepositEvent) (j : ℕ) (d : Deposit)
    → Numbered ds es
    → row j ds ≡ some d
    → any (same_sequence j (d.event_seq + 1)) es ≡ false
next_free ds es j d h found =
    any-sequences j (d.event_seq + 1) es
    ∙ rw (h j, found) (countdown_free d.event_seq (d.event_seq + 1) (omega arith))

pub Numbered-IsClosed : IsClosed (λ db. Numbered db.deposits db.timeline)
unfolding enqueue
Numbered-IsClosed = record {
  update = λ id guard set a. record {
    apply = λ db h.
        update_row-After (λ x. Numbered x.deposits x.timeline) id guard set db h
          λ old found g.
            replace-Numbered id (set db.now old) old db.deposits db.timeline
              (a.same_id db.now old ∙ row_id id db.deposits old found) found (a.same_seq db.now old)
              h;
  };
  recorded = λ d t v. record {
    apply = λ db h.
        record_event-After (λ x. Numbered x.deposits x.timeline) d t v db
          λ old found.
            let e = next_event d t v old db in
            let (same_rows, same_events) = queued-frame d e (appended d e old db) in
            rw (same_rows, same_events)
              (append-Numbered e old db.deposits db.timeline found refl h);
  };
  enqueued = λ kind id p. record { apply = λ db h. h };
}
