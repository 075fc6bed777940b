-- ===== src/Store/Keeps.antt =====
-- What an action does to a predicate on the database, with a rule for each form of action that the
-- transitions are written in.
use mathlib.Core.Path.{subst}
use gum_server.Prelude.{
  ℕ, ◌+◌, ◌≡◌, inl, inr, Bool, true, false, Option, none, some, if◌then◌else◌, any, Bool-cases,
  Option-cases,
}
use gum_server.Prelude.Json.{Value}
use gum_server.Deposit.{Deposit}
use gum_server.Deposit.Events.{EventType}
use gum_server.Deposit.Lifecycle.{IsConsistent, ◌⟶◌, terms_of}
use gum_server.Store.Db.{
  Db, DbError, Tx, Result, ok, err, pure, throw, ◌>>=◌, on_some, on_true, JobKind, Payload, after,
  row, replace, update_row, same_sequence,
}
use gum_server.Store.Record.{record_event, enqueue}
use gum_server.Store.Recorded.{
  queued, appended, next_event, record_event_missing, record_event_taken, record_event_lem,
}

-- `P` of the database that is committed; nothing of one that is rolled back.
abbrev pub After {ℓ} : {A : Type 0} → (Db → Type ℓ) → Result A → Type ℓ
After P (ok a db) = P db
After P (err e) = Unit

pub record Keeps {ℓ} {A : Type 0} (P : Db → Type ℓ) (m : Tx A) : Type ℓ where
  pub apply : (db : Db) → P db → After P (m db)

pub After-bind {ℓ} :
    (P : Db → Type ℓ) {A B : Type 0} (r : Result A) (f : A → Tx B)
    → After P r
    → ((a : A) → Keeps P (f a))
    → After {A = B} P (elim r [ ok a db' ↦ f a db' | err e ↦ err e ])
After-bind P (ok a db) f h k = (k a).apply db h
After-bind P (err e) f h k = tt

-- A result that was committed.
pub committed {ℓ} :
    (P : Db → Type ℓ) {A : Type 0} (r : Result A) (a : A) (db : Db) → After P r → r ≡ ok a db → P db
committed P r a db h e = subst (After P) e h

-- A transaction, committed or rolled back.
after-After {ℓ} :
    (P : Db → Type ℓ) {A : Type 0} (db : Db) (r : Result A) → P db → After P r → P (after db r)
after-After P db (ok a db') h k = k
after-After P db (err e) h k = h

module _ {ℓ} {P : Db → Type ℓ} where
  pub Keeps-pure : {A : Type 0} (a : A) → Keeps P (pure a)
  Keeps-pure a = record { apply = λ db h. h }

  pub Keeps-throw : {A : Type 0} (e : DbError) → Keeps P (throw {A = A} e)
  Keeps-throw e = record { apply = λ db h. tt }

  pub Keeps-bind :
      {A B : Type 0} {m : Tx A} {f : A → Tx B}
      → Keeps P m
      → ((a : A) → Keeps P (f a))
      → Keeps P (m >>= f)
  Keeps-bind {m} {f} km kf = record { apply = λ db h. After-bind P (m db) f (km.apply db h) kf }

  pub Keeps-on_some :
      {A : Type 0} (o : Option A) {f : A → Tx (Unit {0})}
      → ((a : A) → Keeps P (f a))
      → Keeps P (on_some o f)
  Keeps-on_some none k = Keeps-pure tt
  Keeps-on_some (some a) k = k a

  pub Keeps-on_true : (b : Bool) {m : Tx (Unit {0})} → Keeps P m → Keeps P (on_true b m)
  Keeps-on_true true k = k
  Keeps-on_true false k = Keeps-pure tt

  pub Keeps-if :
      {A : Type 0} (b : Bool) {m n : Tx A} → Keeps P m → Keeps P n → Keeps P (if b then m else n)
  Keeps-if true k l = k
  Keeps-if false k l = l

  pub Keeps-after : {A : Type 0} {m : Tx A} → Keeps P m → (db : Db) → P db → P (after db (m db))
  Keeps-after {m} k db h = after-After P db (m db) h (k.apply db h)

-- What the UPDATEs of the store have in common: the row keeps its key, its sequence and its terms,
-- its status moves along an edge, and its columns stay consistent.
pub record Allowed (guard : Deposit → Bool) (set : ℕ → Deposit → Deposit) : Type 0 where
  pub same_id : (now : ℕ) (d : Deposit) → (set now d).id ≡ d.id
  pub same_seq : (now : ℕ) (d : Deposit) → (set now d).event_seq ≡ d.event_seq
  pub same_terms : (now : ℕ) (d : Deposit) → terms_of (set now d) ≡ terms_of d
  pub edge : (now : ℕ) (d : Deposit) → guard d ≡ true → d.status ⟶ (set now d).status
  pub consistent :
      (now : ℕ) (d : Deposit) → guard d ≡ true → IsConsistent d → IsConsistent (set now d)

-- A predicate that each kind of statement keeps, so that every transition does.
pub record IsClosed {ℓ} (P : Db → Type ℓ) : Type ℓ where
  pub update :
      (id : ℕ) (guard : Deposit → Bool) (set : ℕ → Deposit → Deposit)
      → Allowed guard set
      → Keeps P (update_row id guard set)
  pub recorded : (d : Deposit) (t : EventType) (v : Value) → Keeps P (record_event d t v)
  pub enqueued : (kind : JobKind) (id : ℕ) (p : Payload) → Keeps P (enqueue kind id p)

-- An UPDATE leaves the database alone, or replaces the one row that its guard accepts.
pub update_row-After {ℓ} :
    (Q : Db → Type ℓ) (id : ℕ) (guard : Deposit → Bool) (set : ℕ → Deposit → Deposit) (db : Db)
    → Q db
    → ((old : Deposit)
        → row id db.deposits ≡ some old
        → guard old ≡ true
        → Q (record db { deposits = replace id (set db.now old) db.deposits }))
    → After Q (update_row id guard set db)
unfolding update_row
update_row-After Q id guard set db same changed = elim (Option-cases (row id db.deposits)) [
  | inl e ↦ rw (e, update_row) same
  | inr (old, e) ↦
      rw (e, update_row)
        (elim (Bool-cases (guard old)) [ inl g ↦ rw g (changed old e g) | inr g ↦ rw g same ])
]

-- Recording an event rolls back, or appends it under the next sequence of its row.
pub record_event-After {ℓ} :
    (Q : Db → Type ℓ) (d : Deposit) (t : EventType) (v : Value) (db : Db)
    → ((old : Deposit)
        → row d.id db.deposits ≡ some old
        → let e = next_event d t v old db in Q (queued d e (appended d e old db)))
    → After Q (record_event d t v db)
record_event-After Q d t v db next = elim (Option-cases (row d.id db.deposits)) [
  | inl e ↦ rw (record_event_missing d t v db e) tt
  | inr (old, e) ↦ elim (Bool-cases (any (same_sequence d.id (old.event_seq + 1)) db.timeline)) [
    | inl taken ↦ rw (record_event_taken d t v db old e taken) tt
    | inr free ↦ rw (record_event_lem d t v db old e free) (next old e)
  ]
]
