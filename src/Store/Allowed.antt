-- ===== src/Store/Allowed.antt =====
-- The UPDATEs of the transitions are allowed ones.
use gum_server.Prelude.{ℕ, String, ◌≡◌, refl, true, Option, some, none, List, arith, coalesce}
use gum_server.Deposit.Status.{
  DepositStatus, pending, partial_paid, paid, settled, failed, expired, is_open, is_paid, is_failed,
}
use gum_server.Deposit.Lifecycle.{◌⟶◌, stay, see, reach, lapse, refuse, settle, fail, retry}
use gum_server.Store.Transitions.{is_unwatched, accepts_job}
use gum_server.Store.Db.{stamped}
use gum_server.Store.Keeps.{Allowed}

see_edge : (s : DepositStatus) → is_open s ≡ true → s ⟶ partial_paid
see_edge pending h = see
see_edge partial_paid h = stay
see_edge _ h = cc

paid_edge : (s : DepositStatus) {t : DepositStatus} → paid ⟶ t → is_paid s ≡ true → s ⟶ t
paid_edge paid e h = e
paid_edge _ e h = cc

retry_edge : (s : DepositStatus) → is_failed s ≡ true → s ⟶ paid
retry_edge failed h = retry
retry_edge _ h = cc

pub watch_registered-Allowed :
    (watch_id : ℕ)
    → Allowed is_unwatched
        (stamped (λ now d. record d { watch_id = some watch_id; watch_registered_at = some now }))
watch_registered-Allowed watch_id = record {
  same_id = λ now d. refl;
  same_seq = λ now d. refl;
  same_terms = λ now d. refl;
  edge = λ now d h. stay;
  consistent = λ now d h c. ground arith;
}

pub watch_attached-Allowed :
    (watch_id : ℕ)
    → Allowed is_unwatched (λ now d. record d {
      watch_id = some watch_id;
      watch_registered_at = coalesce d.watch_registered_at (some now);
    })
watch_attached-Allowed watch_id = record {
  same_id = λ now d. refl;
  same_seq = λ now d. refl;
  same_terms = λ now d. refl;
  edge = λ now d h. stay;
  consistent = λ now d h c. ground arith;
}

pub pending-Allowed :
    Allowed
      (λ d. is_open d.status)
      (stamped (λ now d. record d {
        status = partial_paid;
        detected_at = coalesce d.detected_at (some now);
      }))
pending-Allowed = record {
  same_id = λ now d. refl;
  same_seq = λ now d. refl;
  same_terms = λ now d. refl;
  edge = λ now d h. see_edge d.status h;
  consistent = λ now d h c. ground arith;
}

pub confirmed-Allowed :
    (confirmed : ℕ)
    → Allowed
        (λ d. is_open d.status)
        (stamped (λ now d. record d {
          status = partial_paid;
          detected_at = coalesce d.detected_at (some now);
          confirmed_amount = confirmed;
        }))
confirmed-Allowed confirmed = record {
  same_id = λ now d. refl;
  same_seq = λ now d. refl;
  same_terms = λ now d. refl;
  edge = λ now d h. see_edge d.status h;
  consistent = λ now d h c. ground arith;
}

pub reached-Allowed :
    (confirmed : ℕ)
    → Allowed
        (λ d. is_open d.status)
        (stamped (λ now d. record d {
          status = paid;
          detected_at = coalesce d.detected_at (some now);
          confirmed_amount = confirmed;
        }))
reached-Allowed confirmed = record {
  same_id = λ now d. refl;
  same_seq = λ now d. refl;
  same_terms = λ now d. refl;
  edge = λ now d h. reach h;
  consistent = λ now d h c. ground arith;
}

pub expired-Allowed :
    Allowed
      (λ d. is_open d.status)
      (stamped (λ now d. record d { status = expired; expired_at = some now }))
expired-Allowed = record {
  same_id = λ now d. refl;
  same_seq = λ now d. refl;
  same_terms = λ now d. refl;
  edge = λ now d h. lapse h;
  consistent = λ now d h c. ground arith;
}

pub submitted-Allowed :
    (job_id : ℕ)
    → Allowed (accepts_job job_id) (
        stamped (λ now d. record d { engine_job_id = some job_id; engine_submitted_at = some now }))
submitted-Allowed job_id = record {
  same_id = λ now d. refl;
  same_seq = λ now d. refl;
  same_terms = λ now d. refl;
  edge = λ now d h. stay;
  consistent = λ now d h c. ground arith;
}

pub included-Allowed :
    (tx_hash : ℕ) (block_number : Option ℕ)
    → Allowed
        (λ d. is_paid d.status)
        (stamped (λ now d. record d { tx_hash = some tx_hash; block_number = block_number }))
included-Allowed tx_hash block_number = record {
  same_id = λ now d. refl;
  same_seq = λ now d. refl;
  same_terms = λ now d. refl;
  edge = λ now d h. stay;
  consistent = λ now d h c. ground arith;
}

pub settled-Allowed :
    (tx_hash : ℕ) (block_number : Option ℕ)
    → Allowed
        (λ d. is_paid d.status)
        (stamped (λ now d. record d {
          status = settled;
          settled_at = some now;
          tx_hash = some tx_hash;
          block_number = coalesce block_number d.block_number;
        }))
settled-Allowed tx_hash block_number = record {
  same_id = λ now d. refl;
  same_seq = λ now d. refl;
  same_terms = λ now d. refl;
  edge = λ now d h. paid_edge d.status settle h;
  consistent = λ now d h c. ground arith;
}

pub failed-Allowed :
    (code message : String) (tx_hash : Option ℕ) (revert_data : Option (List ℕ))
    → Allowed
        (λ d. is_paid d.status)
        (stamped (λ now d. record d {
          status = failed;
          failed_at = some now;
          failure_code = some code;
          failure_message = some message;
          tx_hash = coalesce tx_hash d.tx_hash;
          failure_revert_data = revert_data;
        }))
failed-Allowed code message tx_hash revert_data = record {
  same_id = λ now d. refl;
  same_seq = λ now d. refl;
  same_terms = λ now d. refl;
  edge = λ now d h. paid_edge d.status fail h;
  consistent = λ now d h c. ground arith;
}

pub retried-Allowed :
    Allowed
      (λ d. is_failed d.status)
      (stamped (λ now d. record d {
        status = paid;
        engine_job_id = none;
        engine_submitted_at = none;
        failure_code = none;
        failure_message = none;
        failure_revert_data = none;
        failed_at = none;
      }))
retried-Allowed = record {
  same_id = λ now d. refl;
  same_seq = λ now d. refl;
  same_terms = λ now d. refl;
  edge = λ now d h. retry_edge d.status h;
  consistent = λ now d h c. ground arith;
}

pub reregistered-Allowed :
    Allowed
      (λ d. is_open d.status)
      (stamped (λ now d. record d { watch_id = none; watch_registered_at = none }))
reregistered-Allowed = record {
  same_id = λ now d. refl;
  same_seq = λ now d. refl;
  same_terms = λ now d. refl;
  edge = λ now d h. stay;
  consistent = λ now d h c. ground arith;
}

pub touched-Allowed : Allowed (λ d. true) (stamped (λ now d. d))
touched-Allowed = record {
  same_id = λ now d. refl;
  same_seq = λ now d. refl;
  same_terms = λ now d. refl;
  edge = λ now d h. stay;
  consistent = λ now d h c. ground arith;
}

pub refused-Allowed :
    (code message : String)
    → Allowed
        (λ d. is_open d.status)
        (stamped (λ now d. record d {
          status = failed;
          failed_at = some now;
          failure_code = some code;
          failure_message = some message;
        }))
refused-Allowed code message = record {
  same_id = λ now d. refl;
  same_seq = λ now d. refl;
  same_terms = λ now d. refl;
  edge = λ now d h. refuse h;
  consistent = λ now d h c. ground arith;
}

pub detached-Allowed :
    Allowed
      (λ d. is_paid d.status)
      (stamped (λ now d. record d { engine_job_id = none; engine_submitted_at = none }))
detached-Allowed = record {
  same_id = λ now d. refl;
  same_seq = λ now d. refl;
  same_terms = λ now d. refl;
  edge = λ now d h. stay;
  consistent = λ now d h c. ground arith;
}
