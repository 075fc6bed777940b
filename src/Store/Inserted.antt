-- ===== src/Store/Inserted.antt =====
-- `insert_deposit` under the predicates of the store: a new row is added only where its key is new.
use gum_server.Prelude.{
  ℕ, ◌≡◌, refl, sym, ap, ◌∙◌, String, true, false, inl, inr, none, some, List, ◌∷◌, arith, ◌==◌,
  ==_iff, Bool-cases, Option-cases, any,
}
use gum_server.Deposit.{Deposit}
use gum_server.Deposit.Lifecycle.{IsConsistent}
use gum_server.Store.Db.{Db, row}
use gum_server.Store.Create.{NewDeposit, new_row, same_address, insert_deposit}
use gum_server.Store.Keeps.{After, Keeps}
use gum_server.Store.Evolution.{Evolves, AllConsistent}
use gum_server.Store.Numbering.{Numbered, countdown, seq_of}

insert_deposit-After {ℓ} :
    (Q : Db → Type ℓ) (d : Deposit) (db : Db)
    → (row d.id db.deposits ≡ none → Q (record db { deposits = d ∷ db.deposits }))
    → After Q (insert_deposit d db)
unfolding insert_deposit
insert_deposit-After Q d db new = elim (Option-cases (row d.id db.deposits)) [
  | inr (old, e) ↦ rw e tt
  | inl e ↦ rw e (elim (Bool-cases (any (same_address d.chain_id d.payment_address) db.deposits)) [
    | inl taken ↦ rw taken tt
    | inr free ↦ rw free (new e)
  ])
]

pub row_cons-hit :
    (j : ℕ) (d : Deposit) (ds : List Deposit) → (d.id == j) ≡ true → row j (d ∷ ds) ≡ some d
unfolding row
row_cons-hit j d ds h = rw h refl

row_cons-miss :
    (j : ℕ) (d : Deposit) (ds : List Deposit) → (d.id == j) ≡ false → row j (d ∷ ds) ≡ row j ds
unfolding row
row_cons-miss j d ds h = rw h refl

module _ (id : ℕ) (user : String) (new : NewDeposit) (now : ℕ) where
  abbrev fresh : Deposit
  fresh = new_row id user new now

  fresh-IsConsistent : IsConsistent fresh
  fresh-IsConsistent = ground arith

  pub insert_deposit-Evolves :
      (origin : List Deposit)
      → Keeps (λ db. Evolves origin db.deposits) (insert_deposit (new_row id user new now))
  insert_deposit-Evolves origin = record {
    apply = λ db h.
        insert_deposit-After (λ x. Evolves origin x.deposits) fresh db
          λ none_yet j d e.
            let (now_row, at, past) = h j d e in
            elim (Bool-cases (id == j)) [
              | inl eq ↦ (now_row, cc (at, none_yet, (==_iff id j).0 eq), past)
              | inr ne ↦ (now_row, row_cons-miss j fresh db.deposits ne ∙ at, past)
            ];
  }

  pub insert_deposit-AllConsistent :
      Keeps (λ db. AllConsistent db.deposits) (insert_deposit (new_row id user new now))
  insert_deposit-AllConsistent = record {
    apply = λ db h.
        insert_deposit-After (λ x. AllConsistent x.deposits) fresh db
          λ none_yet j d e. elim (Bool-cases (id == j)) [
            | inl eq ↦
                let hit : fresh ≡ d = cc (e, row_cons-hit j fresh db.deposits eq) in
                rw (sym hit) fresh-IsConsistent
            | inr ne ↦ h j d (sym (row_cons-miss j fresh db.deposits ne) ∙ e)
          ];
  }

  pub insert_deposit-Numbered :
      Keeps (λ db. Numbered db.deposits db.timeline) (insert_deposit (new_row id user new now))
  unfolding countdown
  insert_deposit-Numbered = record {
    apply = λ db h.
        insert_deposit-After (λ x. Numbered x.deposits x.timeline) fresh db
          λ none_yet j. elim (Bool-cases (id == j)) [
            | inl eq ↦
                h j
                ∙ ap countdown
                    (cc (none_yet, (==_iff id j).0 eq, row_cons-hit j fresh db.deposits eq))
            | inr ne ↦
                h j ∙ ap (λ r. countdown (seq_of r)) (sym (row_cons-miss j fresh db.deposits ne))
          ];
  }
