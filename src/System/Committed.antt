-- ===== src/System/Committed.antt =====
-- From a validated request to the deposit's row: the address that the payer pays is that of the row's
-- terms, whatever happens to the deposit.
use mathlib.Core.Path.{subst}
use gum_server.Prelude.{
  ℕ, ◌/◌, ◌<◌, ◌≡◌, refl, sym, ap, ◌∙◌, String, Bool, true, false, Option, some, List, ◌∷◌,
  if◌then◌else◌, ◌||◌, is_some, any, ==_refl,
}
use gum_server.Prelude.Refusals as Refusals
use gum_server.Deposit.{Deposit}
use gum_server.Deposit.Lifecycle.{Later, Later-refl, Later-trans, Terms}
use gum_server.Chain.Payment.{terms}
use gum_server.Store.Db.{
  Db, Tx, Result, DbError, unique_violation, ok, err, register_watch, no_payload, ◌>>=◌, row,
  now_v7, clock,
}
use gum_server.Store.Create.{
  NewDeposit, Idempotency, new_row, same_address, insert_deposit, claim_optional, finish_create,
  insert_new,
}
use gum_server.Store.Record.{record_event, enqueue}
use gum_server.Store.Keeps.{committed}
use gum_server.Store.Inserted.{row_cons-hit}
use gum_server.Deposit.Events as Events
use gum_server.Prelude.Json.{empty_object}
use gum_server.Store.Evolution.{Evolves}
use gum_server.Webhooks.Outcome.{ChainCodec}
use gum_server.Requests.{CreateDepositRequest, Libraries, Validator, validate}
use gum_server.Requests.Valid.{validate-IsValid}
use gum_server.System.{Op, run}
use gum_server.System.Safety.{claim_optional-Keeps, finish_create-Keeps}
use gum_server.System.Deposits.{Evolves-IsSafe, run-Evolves}

result-cases :
    {A B : Type 0} (r : Result A) (f : A → Tx B) {b : B} {db' : Db}
    → elim r [ ok a db1 ↦ f a db1 | err e ↦ err e ] ≡ ok b db'
    → (a : A) × (db1 : Db) × (r ≡ ok a db1) × (f a db1 ≡ ok b db')
result-cases (ok a db1) f h = (a, db1, refl, h)
result-cases (err e) f h = cc h

-- Inversion of statements that commit.
>>=-committed :
    {A B : Type 0} (m : Tx A) (f : A → Tx B) (db : Db) {b : B} {db' : Db}
    → (m >>= f) db ≡ ok b db'
    → (a : A) × (db1 : Db) × (m db ≡ ok a db1) × (f a db1 ≡ ok b db')
>>=-committed m f db h = result-cases (m db) f h

not_refused :
    {A : Type 0} (c : Bool) (e : DbError) (r : Result A) {a : A} {db : Db}
    → (if c then err e else r) ≡ ok a db
    → r ≡ ok a db
not_refused true e r h = cc h
not_refused false e r h = h

inserted-row :
    (d : Deposit) (db db' : Db) {a : Deposit}
    → insert_deposit d db ≡ ok a db'
    → (a ≡ d) × (row d.id db'.deposits ≡ some d)
unfolding insert_deposit
inserted-row d db db' {a} h =
    let stored =
      not_refused
        (is_some (row d.id db.deposits)
          || any (same_address d.chain_id d.payment_address) db.deposits)
        unique_violation (ok d (record db { deposits = d ∷ db.deposits })) h in
    let same : record db { deposits = d ∷ db.deposits } ≡ db' = cc stored in
    (
      cc stored,
      ap (λ x. row d.id x.deposits) (sym same) ∙ row_cons-hit d.id d db.deposits (==_refl d.id),
    )

finish_create-some :
    (claimed : Bool) (d : Deposit) (db db' : Db) {a : Deposit}
    → finish_create claimed d db ≡ ok (some a) db'
    → a ≡ d
finish_create-some false d db db' h = cc h
finish_create-some true d db db' h =
    let (e, db1, e1, h1) = >>=-committed (record_event d Events.created empty_object) _ db h in
    let (u, db2, e2, h2) = >>=-committed (enqueue register_watch d.id no_payload) _ db1 h1 in cc h2

-- The row of a deposit that was created is there with the terms of the request.
insert_new-Later :
    (user : String) (new : NewDeposit) (idem : Option Idempotency) (db db' : Db) (d : Deposit)
    → insert_new user new idem db ≡ ok (some d) db'
    → (id : ℕ) × (now : ℕ) × (e : Deposit) × (d ≡ new_row id user new now)
      × (row d.id db'.deposits ≡ some e)
      × Later d e
unfolding insert_new
insert_new-Later user new idem db db' d h =
    let (id, db1, e1, h1) = >>=-committed now_v7 _ db h in
    let (now, db2, e2, h2) = >>=-committed clock _ db1 h1 in
    let (a, db3, e3, h3) = >>=-committed (insert_deposit (new_row id user new now)) _ db2 h2 in
    let (same, found) = inserted-row (new_row id user new now) db2 db3 e3 in
    let (claimed, db4, e4, h4) = >>=-committed (claim_optional user idem id) _ db3 h3 in
    let eq : d ≡ new_row id user new now = finish_create-some claimed a db4 db' h4 ∙ same in
    let s = Evolves-IsSafe db3.deposits in
    let kept4 =
      committed (λ x. Evolves db3.deposits x.deposits) (claim_optional user idem id db3) claimed db4
        ((claim_optional-Keeps s user idem id).apply db3 (λ i x f. (x, f, Later-refl x))) e4 in
    let kept =
      committed (λ x. Evolves db3.deposits x.deposits) (finish_create claimed a db4) (some d) db'
        ((finish_create-Keeps s claimed a).apply db4 kept4) h4 in
    let (e, at, later) =
      kept d.id d (ap (λ x. row x.id db3.deposits) eq ∙ found ∙ ap some (sym eq)) in
    (id, now, e, eq, at, later)

module _ (lib : Libraries) (v : Validator) where
  -- The address of a row is the one that its terms hash to.
  pub Committed : Deposit → Type 0
  Committed d = d.payment_address ≡ lib.payment_address (terms d) v.factory

  validated-Committed :
      (req : CreateDepositRequest) (t salt id now : ℕ) (user : String) (new : NewDeposit)
      → 0 < v.min_expiry_lead_secs
      → validate lib v req t salt ≡ Refusals.ok new
      → Committed (new_row id user new now)
  unfolding terms Committed
  validated-Committed req t salt id now user new p h =
      let valid = validate-IsValid lib v req t salt new p h in valid.committed

  hashed : Terms → ℕ
  hashed t =
      lib.payment_address
        (record {
          token = t.token_address;
          amount = t.amount;
          calls = t.calls;
          expiration_timestamp = t.expires_at / 1000;
          recovery = t.recovery;
          salt = t.salt;
          chain_id = t.chain_id;
        })
        v.factory

  Later-Committed : (d e : Deposit) → Later d e → Committed d → Committed e
  unfolding terms Committed hashed
  Later-Committed d e later h =
      ap (λ x. x.payment_address) later.kept ∙ h ∙ sym (ap hashed later.kept)

  -- Whatever transactions are committed after a validated request was stored, its deposit is there and
  -- its payment address is the one that the terms in its row hash to: what the payer was shown is what
  -- the settlement executes.
  pub run-Committed :
      (req : CreateDepositRequest) (t salt : ℕ) (user : String) (new : NewDeposit)
      (idem : Option Idempotency) (db db' : Db) (d : Deposit) (codec : ChainCodec)
      (uuid_time : ℕ → Option ℕ) (os : List Op)
      → 0 < v.min_expiry_lead_secs
      → validate lib v req t salt ≡ Refusals.ok new
      → insert_new user new idem db ≡ ok (some d) db'
      → (e : Deposit) × (row d.id (run codec uuid_time os db').deposits ≡ some e)
        × Later d e
        × (e.payment_address ≡ lib.payment_address (terms e) v.factory)
  unfolding Committed
  run-Committed req t salt user new idem db db' d codec uuid_time os p valid stored =
      let (id, now, e, eq, at, later) = insert_new-Later user new idem db db' d stored in
      let (e2, at2, later2) = run-Evolves codec uuid_time os db' d.id e at in
      let both = Later-trans later later2 in
      let first =
        subst Committed (sym eq) (validated-Committed req t salt id now user new p valid) in
      (e2, at2, both, Later-Committed d e2 both first)
