-- ===== src/Store/Replay.antt =====
-- A create under an idempotency key, and the same key again.
use mathlib.Core.Path.{subst}
use text.Mathlib.TextPositions.{eq_refl}
use gum_server.Prelude.{
  ℕ, suc, String, ◌≡◌, refl, sym, ◌∙◌, ap, Bool, true, false, Option, inl, inr, none, some, List,
  ◌∷◌, arith, ◌==◌, ==_refl, Bool-cases, if◌then◌else◌, first, any,
}
use gum_server.Deposit.{Deposit}
use gum_server.Store.Db.{
  Db, Tx, Result, ok, err, row, replace, now_v7, clock, IdempotencyRow, register_watch, no_payload,
}
use gum_server.Prelude.Json.{empty_object}
use gum_server.Deposit.Events as Events
use gum_server.Store.Record.{record_event, enqueue}
use gum_server.Store.Rows.{row_id, row-replace}
use gum_server.Store.Recorded.{bumped, queued, queued-frame, next_event, appended}
use gum_server.Store.Keeps.{IsClosed, committed, update_row-After, record_event-After}
use gum_server.Store.Create.{
  NewDeposit, Idempotency, replayed, conflict, new_row, same_key, insert_deposit, claim_key,
  claim_optional, finish_create, insert_new, lookup_idempotent, Meanwhile, create_deposit,
}

module _ (user : String) (idem : Idempotency) where
  -- The key was claimed with its fingerprint, for a deposit that is stored.
  pub record IsTaken (id : ℕ) (db : Db) : Type 0 where
    pub claim_row : IdempotencyRow
    pub claimed : first (same_key user idem.key) db.idempotency ≡ some claim_row
    pub named : claim_row.deposit_id ≡ id
    pub hashed : claim_row.request_hash ≡ idem.fingerprint
    pub target : Deposit
    pub stored : row id db.deposits ≡ some target

  replace-stored :
      (id j : ℕ) (new old e : Deposit) (ds : List Deposit)
      → new.id ≡ id
      → row id ds ≡ some old
      → row j ds ≡ some e
      → (e' : Deposit) × (row j (replace id new ds) ≡ some e')
  replace-stored id j new old e ds same found h = elim (Bool-cases (id == j)) [
    | inl eq ↦ (new, rw (row-replace id j new old ds same found, eq) refl)
    | inr ne ↦ (e, rw (row-replace id j new old ds same found, ne) h)
  ]

  -- Statements that leave the keys alone and lose no row.
  IsTaken-moves :
      (id : ℕ) (db db' : Db)
      → db'.idempotency ≡ db.idempotency
      → ((j : ℕ) (e : Deposit)
          → row j db.deposits ≡ some e
          → (e' : Deposit) × (row j db'.deposits ≡ some e'))
      → IsTaken id db
      → IsTaken id db'
  IsTaken-moves id db db' keys rows t =
      let (e, at) = rows id t.target t.stored in
      record {
        claim_row = t.claim_row;
        claimed = ap (first (same_key user idem.key)) keys ∙ t.claimed;
        named = t.named;
        hashed = t.hashed;
        target = e;
        stored = at;
      }

  IsTaken-IsClosed : (target_id : ℕ) → IsClosed (IsTaken target_id)
  unfolding enqueue
  IsTaken-IsClosed target_id = record {
    update = λ id guard set a. record {
      apply = λ db h. update_row-After (IsTaken target_id) id guard set db h λ old found g.
          IsTaken-moves target_id db _ refl
            (λ j e at.
              replace-stored id j (set db.now old) old e db.deposits
                (a.same_id db.now old ∙ row_id id db.deposits old found) found at)
            h;
    };
    recorded = λ d t v. record {
      apply = λ db h. record_event-After (IsTaken target_id) d t v db λ old found.
          let e = next_event d t v old db in
          let db₁ = appended d e old db in
          IsTaken-moves target_id db (queued d e db₁) (ground arith)
            (λ j x at.
              let (y, there) =
                replace-stored d.id j (bumped old) old x db.deposits
                  (row_id d.id db.deposits old found) found at in
              (y, ap (row j) (queued-frame d e db₁).0 ∙ there))
            h;
    };
    enqueued = λ kind id p. record {
      apply = λ db h. IsTaken-moves target_id db _ refl (λ j e at. (e, at)) h;
    };
  }

  -- What a claimed create commits; one that is rolled back commits nothing.
  abbrev AfterCreate : Result (Option Deposit) → Type 0
  AfterCreate (ok (some d) db) = IsTaken d.id db
  AfterCreate (ok none db) = Unit
  AfterCreate (err e) = Unit

  AfterCreate-bind :
      {A : Type 0} (r : Result A) (f : A → Tx (Option Deposit))
      → ((a : A) (db : Db) → r ≡ ok a db → AfterCreate (f a db))
      → AfterCreate (elim r [ ok a db ↦ f a db | err e ↦ err e ])
  AfterCreate-bind (ok a db) f h = h a db refl
  AfterCreate-bind (err e) f h = tt

  insert_deposit-stored :
      (d a : Deposit) (db db' : Db)
      → insert_deposit d db ≡ ok a db'
      → row d.id db'.deposits ≡ some a
  unfolding insert_deposit row
  insert_deposit-stored d a db db' h = ground (arith, ==_refl d.id)

  -- The database with the key claimed.
  abbrev with_key : ℕ → Db → Db
  with_key id db = record db {
    idempotency =
        record {
          user_id = user;
          key = idem.key;
          request_hash = idem.fingerprint;
          deposit_id = id;
          created_at = db.now;
        }
        ∷ db.idempotency;
  }

  with_key-IsTaken :
      (id : ℕ) (e : Deposit) (db : Db) → row id db.deposits ≡ some e → IsTaken e.id (with_key id db)
  with_key-IsTaken id e db at = record {
    claim_row = record {
      user_id = user;
      key = idem.key;
      request_hash = idem.fingerprint;
      deposit_id = id;
      created_at = db.now;
    };
    claimed = ground (arith, eq_refl user, eq_refl idem.key);
    named = sym (row_id id db.deposits e at);
    hashed = refl;
    target = e;
    stored = ap (λ i. row i db.deposits) (row_id id db.deposits e at) ∙ at;
  }

  claim_key-true :
      (id : ℕ) (db db' : Db) → claim_key user idem id db ≡ ok true db' → with_key id db ≡ db'
  unfolding claim_key
  claim_key-true id db db' h = elim (Bool-cases (any (same_key user idem.key) db.idempotency)) [
    | inl e ↦ ground arith
    | inr e ↦ ground arith
  ]

  finish_create-IsTaken :
      (b : Bool) (d : Deposit) (db : Db)
      → (b ≡ true → IsTaken d.id db)
      → AfterCreate (finish_create b d db)
  finish_create-IsTaken false d db h = tt
  finish_create-IsTaken true d db h =
      AfterCreate-bind (record_event d Events.created empty_object db) _ λ e db₁ p.
        AfterCreate-bind (enqueue register_watch d.id no_payload db₁) _ λ u db₂ q.
          committed (IsTaken d.id) _ u db₂
            (((IsTaken-IsClosed d.id).enqueued register_watch d.id no_payload).apply db₁ (
              committed (IsTaken d.id) _ e db₁
                (((IsTaken-IsClosed d.id).recorded d Events.created empty_object).apply db (h refl))
                p))
            q

  insert_new-IsTaken :
      (new : NewDeposit) (db : Db) → AfterCreate (insert_new user new (some idem) db)
  unfolding insert_new now_v7 clock claim_optional
  insert_new-IsTaken new db =
      let id = db.uuids db.drawn in
      let db₁ = record db { drawn = suc db.drawn } in
      AfterCreate-bind (insert_deposit (new_row id user new db.now) db₁) _ λ d db₂ e.
        AfterCreate-bind (claim_key user idem id db₂) _ λ b db₃ k.
          finish_create-IsTaken b d db₃ λ t.
            subst (IsTaken d.id) (claim_key-true id db₂ db₃ (k ∙ ap (λ x. ok x db₃) t)) (
              with_key-IsTaken id d db₂
                (insert_deposit-stored (new_row id user new db.now) d db₁ db₂ e))

lookup-taken :
    (user : String) (idem : Idempotency) (fingerprint id : ℕ) (db : Db)
    (t : IsTaken user idem id db)
    → lookup_idempotent user (record { key = idem.key; fingerprint = fingerprint }) db
      ≡ some (if idem.fingerprint == fingerprint then replayed t.target else conflict)
unfolding lookup_idempotent
lookup-taken user idem fingerprint id db t =
    rw (t.claimed, lookup_idempotent)
      (rw (t.hashed, t.named)
        (elim (Bool-cases (idem.fingerprint == fingerprint)) [
          | inl e ↦ rw (e, t.stored) refl
          | inr e ↦ rw e refl
        ]))

-- After a create under a key is committed, a create of the same user under that key stores nothing:
-- with the same fingerprint it answers with that deposit's row, with another one with a conflict.
pub create-replay :
    (user : String) (idem : Idempotency) (new again : NewDeposit) (fingerprint : ℕ)
    (others : Meanwhile) (d : Deposit) (db db' : Db)
    → insert_new user new (some idem) db ≡ ok (some d) db'
    → (e : Deposit) × (row d.id db'.deposits ≡ some e)
      × (create_deposit others user again
            (some (record { key = idem.key; fingerprint = fingerprint }))
            db'
          ≡ ok (if idem.fingerprint == fingerprint then replayed e else conflict) db')
unfolding create_deposit
create-replay user idem new again fingerprint others d db db' h =
    let t = subst (AfterCreate user idem) h (insert_new-IsTaken user idem new db) in
    (t.target, t.stored, rw (lookup-taken user idem fingerprint d.id db' t, create_deposit) refl)
