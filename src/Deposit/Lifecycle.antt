-- ===== src/Deposit/Lifecycle.antt =====
-- What the columns of one row say together, and the status changes that an UPDATE may make.
use gum_server.Prelude.{ℕ, ◌≤◌, ◌≡◌, refl, ◌∙◌, Bool, true, false, List, arith, is_some}
use gum_server.Deposit.{Deposit, CallView}
use gum_server.Deposit.Status.{
  DepositStatus, pending, partial_paid, paid, settled, failed, expired, is_open, is_failed,
}

abbrev pub is_settled : DepositStatus → Bool
is_settled settled = true
is_settled _ = false

abbrev pub is_expired : DepositStatus → Bool
is_expired expired = true
is_expired _ = false

-- The statuses of a deposit that was handed to the engine.
abbrev pub is_routed : DepositStatus → Bool
is_routed paid = true
is_routed settled = true
is_routed failed = true
is_routed _ = false

pub record IsConsistent (d : Deposit) : Type 0 where
  pub settled_stamp : is_some d.settled_at ≡ is_settled d.status
  pub failed_stamp : is_some d.failed_at ≡ is_failed d.status
  pub failed_code : is_some d.failure_code ≡ is_failed d.status
  pub failed_message : is_some d.failure_message ≡ is_failed d.status
  pub expired_stamp : is_some d.expired_at ≡ is_expired d.status
  pub job_stamp : is_some d.engine_submitted_at ≡ is_some d.engine_job_id
  pub watch_stamp : is_some d.watch_registered_at ≡ is_some d.watch_id
  pub job_routed : is_some d.engine_job_id ≡ true → is_routed d.status ≡ true
  pub settled_hash : is_settled d.status ≡ true → is_some d.tx_hash ≡ true
  pub revert_failed : is_some d.failure_revert_data ≡ true → is_failed d.status ≡ true

-- The columns that the payment address commits to, with those that name the deposit.
pub record Terms : Type 0 where
  pub chain_id : ℕ
  pub token_address : ℕ
  pub amount : ℕ
  pub receiver : ℕ
  pub calls : List CallView
  pub recovery : ℕ
  pub salt : ℕ
  pub expires_at : ℕ
  pub payment_address : ℕ

abbrev pub terms_of : Deposit → Terms
terms_of d = record {
  chain_id = d.chain_id;
  token_address = d.token_address;
  amount = d.amount;
  receiver = d.receiver;
  calls = d.calls;
  recovery = d.recovery;
  salt = d.salt;
  expires_at = d.expires_at;
  payment_address = d.payment_address;
}

infix 40 ◌⟶◌ ◌⟶*◌
pub data ◌⟶◌ : DepositStatus → DepositStatus → Type 0 where
  stay : {s : DepositStatus} → s ⟶ s
  see : pending ⟶ partial_paid
  reach : {s : DepositStatus} → is_open s ≡ true → s ⟶ paid
  lapse : {s : DepositStatus} → is_open s ≡ true → s ⟶ expired
  refuse : {s : DepositStatus} → is_open s ≡ true → s ⟶ failed
  settle : paid ⟶ settled
  fail : paid ⟶ failed
  retry : failed ⟶ paid

pub data ◌⟶*◌ : DepositStatus → DepositStatus → Type 0 where
  here : {s : DepositStatus} → s ⟶* s
  next : {s t u : DepositStatus} → s ⟶* t → t ⟶ u → s ⟶* u

-- `settled` and `expired` are left by no change; `failed` is, by an operator's retry.
abbrev pub is_final : DepositStatus → Bool
is_final settled = true
is_final expired = true
is_final _ = false

final-⟶ : {s t : DepositStatus} → s ⟶ t → is_final s ≡ true → t ≡ s
final-⟶ stay h = refl
final-⟶ see h = cc
final-⟶ (reach {s} o) h = ground arith
final-⟶ (lapse {s} o) h = ground arith
final-⟶ (refuse {s} o) h = ground arith
final-⟶ settle h = cc
final-⟶ fail h = cc
final-⟶ retry h = cc

pub final-⟶* : {s t : DepositStatus} → s ⟶* t → is_final s ≡ true → t ≡ s
final-⟶* here h = refl
final-⟶* (next p e) h = let q = final-⟶* p h in final-⟶ e (rw q h) ∙ q

-- A row and the same row later on: its status has moved along edges, its sequence has not fallen,
-- and what its payment address commits to is as it was.
pub record Later (d e : Deposit) : Type 0 where
  pub moved : d.status ⟶* e.status
  pub grown : d.event_seq ≤ e.event_seq
  pub kept : terms_of e ≡ terms_of d

pub Later-refl : (d : Deposit) → Later d d
Later-refl d = record { moved = here; grown = omega arith; kept = refl }

pub ⟶*-trans : {s t u : DepositStatus} → s ⟶* t → t ⟶* u → s ⟶* u
⟶*-trans p here = p
⟶*-trans p (next q e) = next (⟶*-trans p q) e

pub Later-trans : {d e f : Deposit} → Later d e → Later e f → Later d f
Later-trans p q = record {
  moved = ⟶*-trans p.moved q.moved;
  grown = omega arith;
  kept = q.kept ∙ p.kept;
}
