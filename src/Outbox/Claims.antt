-- ===== src/Outbox/Claims.antt =====
-- What `claim` hands to a worker.
use text.Mathlib.TextEquality.{eq_iff}
use text.Mathlib.TextPositions.{eq_refl}
use gum_server.Prelude.{
  if◌then◌else◌, Bool-cases, inl, inr, ℕ, zero, suc, ◌+◌, ◌*◌, ◌≤◌, ◌≡◌, ◌⊎◌, refl, Bool, true,
  false, ◌&&◌, not, String, List, [], ◌∷◌, arith, str_eq, any, take, length, All, map,
}
use gum_server.Prelude.Every.{
  All-select, All-sort_by, All-take, All-map, All-zip, All-swap, All-selected, any-All,
}
use gum_server.Store.Db.{Db, OutboxJob}
use gum_server.Outbox.Queue.{
  is_due, is_unlocked, has_id, is_live, kind_name, same_lane, blocks, claimable, due_batch, claim,
  locked,
}

length-take {ℓ} : {A : Type ℓ} (n : ℕ) (xs : List A) → length (take n xs) ≤ n
length-take zero xs = omega arith
length-take (suc n) [] = omega arith
length-take (suc n) (x ∷ xs) = omega (arith, length-take n xs)

-- A job that a worker may be handed: due, with no live earlier job in its lane, and locked by no
-- other session.
abbrev pub is_free : (ℕ → Bool) → Db → OutboxJob → Bool
is_free held db o = is_due db.now o && (not (any (blocks o) db.outbox) && not (held o.id))

-- In different lanes, or the same job.
abbrev pub IsApart : OutboxJob → OutboxJob → Type 0
IsApart o p = (same_lane p o ≡ false) ⊎ (o.id ≡ p.id)

str_eq-sym : (s t : String) → str_eq s t ≡ true → str_eq t s ≡ true
str_eq-sym s t h = rw ((eq_iff s t).0 h) (eq_refl t)

blocks-IsApart :
    (o p : OutboxJob)
    → is_live o ≡ true
    → is_live p ≡ true
    → blocks o p ≡ false
    → blocks p o ≡ false
    → IsApart o p
blocks-IsApart o p lo lp h k = ground (arith, str_eq-sym (kind_name p.kind) (kind_name o.kind))

module _ (held : ℕ → Bool) (batch : ℕ) (db : Db) where
  abbrev due : List OutboxJob
  due = due_batch held batch db.now db.outbox

  due-All {κ} : (P : OutboxJob → Type κ) → All P (claimable held db.now db.outbox) → All P due
  unfolding due_batch
  due-All P h = All-take P batch _ (All-sort_by P _ _ h)

  due-rows {κ} : (P : OutboxJob → Type κ) → All P db.outbox → All P due
  unfolding claimable
  due-rows P h = due-All P (All-select P _ db.outbox h)

  due-free : All (λ o. is_free held db o ≡ true) due
  unfolding claimable
  due-free = due-All _ (All-selected _ db.outbox)

  due-live : All (λ o. is_live o ≡ true) due
  due-live = All-map _ _ (λ o h. ground arith) due due-free

  unblocked : All (λ o. All (λ p. blocks o p ≡ false) due) due
  unblocked =
      All-map _ _
        (λ o h. due-rows (λ p. blocks o p ≡ false) (any-All (blocks o) db.outbox (ground arith)))
        due due-free

  due-IsApart : All (λ o. All (IsApart o) due) due
  due-IsApart =
      All-map _ _
        (λ o h.
          All-map _ _ (λ p k. blocks-IsApart o p h.0 k.0 k.1.0 k.1.1) due
            (All-zip _ _ due due-live (All-zip _ _ due h.1.0 h.1.1)))
        due
        (All-zip _ _ due due-live
          (All-zip _ _ due unblocked (All-swap (λ p o. blocks p o ≡ false) due due unblocked)))

  -- A worker is handed at most a batch of jobs, locked for the given time; each was due, was held by
  -- no other session and had no live earlier job of its deposit and kind; and of two that it is
  -- handed, either they are of different deposits or kinds, or they are the same job.
  pub claim-free :
      (lock_ttl_secs : ℕ)
      → let due = due_batch held batch db.now db.outbox in
        ((claim held batch lock_ttl_secs db).0 ≡ map (locked (db.now + lock_ttl_secs * 1000)) due)
        × (length due ≤ batch)
        × All (λ o. is_free held db o ≡ true) due
        × All (λ o. All (IsApart o) due) due
  unfolding claim due_batch
  claim-free lock_ttl_secs = (refl, length-take batch _, due-free, due-IsApart)

-- Locked at that time, or not of the jobs.
abbrev IsLeft : ℕ → List OutboxJob → OutboxJob → Type 0
IsLeft now jobs p = (is_unlocked now p.locked_until ≡ false) ⊎ (any (has_id p.id) jobs ≡ false)

-- The row as `claim` leaves it.
abbrev left_row : ℕ → List OutboxJob → OutboxJob → OutboxJob
left_row until jobs o = if any (has_id o.id) jobs then locked until o else o

left_row-IsLeft :
    (until now : ℕ) (jobs : List OutboxJob) (o : OutboxJob)
    → now ≤ until
    → IsLeft now jobs (left_row until jobs o)
left_row-IsLeft until now jobs o h = elim (Bool-cases (any (has_id o.id) jobs)) [
  | inl e ↦ rw e (inl (ground arith))
  | inr e ↦ rw e (inr e)
]

rows-IsLeft :
    (until now : ℕ) (jobs rows : List OutboxJob)
    → now ≤ until
    → All (IsLeft now jobs) (map (left_row until jobs) rows)
rows-IsLeft until now jobs [] h = tt
rows-IsLeft until now jobs (o ∷ os) h =
    (left_row-IsLeft until now jobs o h, rows-IsLeft until now jobs os h)

-- While the lock of a claimed batch lasts, no session is handed one of its jobs again.
pub claim-exclusive :
    (held held' : ℕ → Bool) (batch batch' lock_ttl_secs elapsed : ℕ) (db : Db)
    → elapsed ≤ lock_ttl_secs * 1000
    → let rows = (claim held batch lock_ttl_secs db).1.outbox in
      All
        (λ p. any (has_id p.id) (due_batch held batch db.now db.outbox) ≡ false)
        (due_batch held' batch' (db.now + elapsed) rows)
unfolding claim
claim-exclusive held held' batch batch' lock_ttl_secs elapsed db h =
    let now = db.now + elapsed in
    let until = db.now + lock_ttl_secs * 1000 in
    let jobs = due_batch held batch db.now db.outbox in
    let db' = record db { now = now; outbox = map (left_row until jobs) db.outbox } in
    let again = due held' batch' db' in
    All-map _ _ (λ p k. ground arith) again
      (All-zip _ _ again (due-free held' batch' db') (
        due-rows held' batch' db' (IsLeft now jobs)
          (rows-IsLeft until now jobs db.outbox (omega arith))))
