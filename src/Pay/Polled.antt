-- ===== src/Pay/Polled.antt =====
-- src/deposit/pay.rs, `view` and `hold_for`: what a held request waits for, and for how long.
use mathlib.Core.Path.{subst}
use gum_server.Prelude.{
  ℕ, ◌+◌, ◌≤◌, ◌<◌, ◌≡◌, ◌⊎◌, refl, sym, ap, ◌∙◌, Bool, true, false, Option, none, some, List, [],
  ◌∷◌, append, ltb, leb, arith, inl, inr, Bool-cases, Option-cases, All, is_some, map, select,
  sort_by,
}
use gum_server.Prelude.Every.{All-sort_by, All-selected}
use gum_server.Deposit.{Deposit, DepositEvent}
use gum_server.Store.Db.{row}
use gum_server.Pay.{
  ℤ, Wake, Next, next_of, leave, wait, read_again, follow, awaited, hold_for, clamped, view,
  PayerView, payer_event, new_view, is_shown, is_payer_event, events_through, answer,
}

clamped-bound : (requested : Option ℤ) → clamped requested ≤ 25
clamped-bound none = omega arith
clamped-bound (some (ℤ.pos n)) = ground arith
clamped-bound (some (ℤ.negsuc n)) = omega arith

ltb-true : (a b : ℕ) → a < b → ltb a b ≡ true
ltb-true a b h = ground arith

ltb-false : (a b : ℕ) → ltb a b ≡ false → b ≤ a
ltb-false a b h = ground arith

-- A hold is at most 25 seconds, and ends a second before the request's timeout unless it is none.
pub hold_for-bound :
    (requested : Option ℤ) (request_timeout : ℕ)
    → (hold_for requested request_timeout ≤ 25000)
      × ((hold_for requested request_timeout ≡ 0)
          ⊎ (hold_for requested request_timeout + 1000 ≤ request_timeout))
unfolding hold_for
hold_for-bound requested request_timeout = let short = clamped-bound requested in ground arith

-- The loop does not end at this wake: the channel is there, and so is the deposit.
abbrev pub onward : Next → Option Deposit → Bool
onward leave o = false
onward other o = is_some o

abbrev pub goes_on : ℕ → Wake → Bool
goes_on id w = onward (next_of id w.heard) (row id w.deposits)

onward-cases :
    (n : Next) (o : Option Deposit)
    → onward n o ≡ true
    → ((n ≡ wait) ⊎ (n ≡ read_again)) × (a : Deposit) × (o ≡ some a)
onward-cases leave o g = cc g
onward-cases wait none g = cc g
onward-cases wait (some a) g = (inl refl, a, refl)
onward-cases read_again none g = cc g
onward-cases read_again (some a) g = (inr refl, a, refl)

-- A change of the deposit that is heard within the hold is answered: where what came before it left the
-- request waiting and the deposit there, the answer's sequence is past what the client has.
pub follow-answers :
    (id after : ℕ) (d e : Deposit) (before : List Wake) (w : Wake) (later : List Wake)
    → All (λ x. goes_on id x ≡ true) before
    → next_of id w.heard ≡ read_again
    → row id w.deposits ≡ some e
    → after < e.event_seq
    → (found : Deposit) × (follow id after d (append before (w ∷ later)) ≡ some found)
      × (after < found.event_seq)
unfolding follow
follow-answers id after d e [] w later k h r l =
    let newer = ltb-true after e.event_seq l in
    (e, rw (h, follow) (rw (r, follow) (rw (newer, follow) refl)), l)
follow-answers id after d e (x ∷ before) w later (g, k) h r l =
    let (next, a, found) = onward-cases (next_of id x.heard) (row id x.deposits) g in
    elim next [
      | inl waits ↦
          let (b, answered, newer) = follow-answers id after d e before w later k h r l in
          (b, rw (waits, follow) answered, newer)
      | inr reads ↦ elim (Bool-cases (ltb after a.event_seq)) [
        | inl past ↦
            (a, rw (reads, follow) (rw (found, follow) (rw (past, follow) refl)), ground arith)
        | inr old ↦
            let (b, answered, newer) = follow-answers id after a e before w later k h r l in
            (b, rw (reads, follow) (rw (found, follow) (rw (old, follow) answered)), newer)
      ]
    ]

awaited-answers :
    (id after hold : ℕ) (deposits : List Deposit) (now e : Deposit) (before : List Wake) (w : Wake)
    (later : List Wake)
    → row id deposits ≡ some now
    → 0 < hold
    → All (λ x. goes_on id x ≡ true) before
    → next_of id w.heard ≡ read_again
    → row id w.deposits ≡ some e
    → after < e.event_seq
    → (found : Deposit) × (awaited id (some (ℤ.pos after)) hold deposits (append before (w ∷ later))
        ≡ some found)
      × (after < found.event_seq)
unfolding awaited
awaited-answers id after hold deposits now e before w later at held k h r l =
    let holds = ltb-true 0 hold held in
    elim (Bool-cases (leb now.event_seq after)) [
      | inl old ↦
          let (found, answered, newer) = follow-answers id after now e before w later k h r l in
          (found, rw (at, awaited) (rw (holds, awaited) (rw (old, awaited) answered)), newer)
      | inr past ↦ (
        now,
        rw (at, awaited) (rw (holds, awaited) (rw (past, awaited) refl)),
        ground (arith, past),
      )
    ]

-- A held request is answered by a change that is heard: where the hold is not none, what came before it
-- left the request waiting and the deposit there, and the change is past what the client has, the view
-- that is answered is past it too.
pub view-answers :
    (id after : ℕ) (wait_secs : Option ℤ) (request_timeout : ℕ) (deposits : List Deposit)
    (now e : Deposit) (before : List Wake) (w : Wake) (later : List Wake)
    (timeline : List DepositEvent)
    → row id deposits ≡ some now
    → 0 < hold_for wait_secs request_timeout
    → All (λ x. goes_on id x ≡ true) before
    → next_of id w.heard ≡ read_again
    → row id w.deposits ≡ some e
    → after < e.event_seq
    → (v : PayerView) × (view id
          (some (ℤ.pos after))
          wait_secs
          request_timeout
          deposits
          (append before (w ∷ later))
          timeline
        ≡ some v)
      × (after < v.sequence)
unfolding view answer new_view
view-answers id after wait_secs request_timeout deposits now e before w later timeline at held k h r
      l =
    let (found, answered, newer) =
      awaited-answers id after (hold_for wait_secs request_timeout) deposits now e before w later at
        held k h r l in
    (
      new_view found (events_through id found.event_seq timeline),
      ap (answer id timeline) answered,
      newer,
    )

All-map :
    {A B : Type 0} (P : A → Type 0) (Q : B → Type 0) (f : A → B)
    → ((x : A) → P x → Q (f x))
    → (xs : List A) → All P xs
    → All Q (map f xs)
All-map P Q f g [] h = tt
All-map P Q f g (x ∷ xs) (a, h) = (g x a, All-map P Q f g xs h)

shown-bound :
    (id through : ℕ) (e : DepositEvent)
    → is_shown id through e ≡ true
    → (e.deposit_id ≡ id) × (e.sequence ≤ through) × (is_payer_event e.event_type ≡ true)
shown-bound id through e h = (ground arith, ground arith, ground arith)

-- What an answer says of its own events.
abbrev pub Shown : PayerView → Type 0
Shown v = All (λ e. (e.sequence ≤ v.sequence) × (is_payer_event e.event_type ≡ true)) v.events

new_view-Shown :
    (id : ℕ) (d : Deposit) (timeline : List DepositEvent)
    → Shown (new_view d (events_through id d.event_seq timeline))
unfolding new_view events_through payer_event
new_view-Shown id d timeline =
    let keep = is_shown id d.event_seq in
    All-map (λ e. keep e ≡ true)
      (λ e. (e.sequence ≤ d.event_seq) × (is_payer_event e.event_type ≡ true)) payer_event
      (λ e h. let (same, through, payer) = shown-bound id d.event_seq e h in (through, payer))
      (sort_by (λ e. e.sequence) (select keep timeline))
      (All-sort_by (λ e. keep e ≡ true) (λ e. e.sequence) (select keep timeline)
        (All-selected keep timeline))

-- Each event of an answer is of a payer's type and no later than the row that the answer shows.
pub view-Shown :
    (id : ℕ) (after wait_secs : Option ℤ) (request_timeout : ℕ) (deposits : List Deposit)
    (wakes : List Wake) (timeline : List DepositEvent) (v : PayerView)
    → view id after wait_secs request_timeout deposits wakes timeline ≡ some v
    → Shown v
unfolding view answer
view-Shown id after wait_secs request_timeout deposits wakes timeline v h =
    let o = awaited id after (hold_for wait_secs request_timeout) deposits wakes in
    elim (Option-cases o) [
      | inl e ↦ let none_is : none ≡ some v = ap (answer id timeline) (sym e) ∙ h in cc none_is
      | inr (d, e) ↦
          let it : some (new_view d (events_through id d.event_seq timeline)) ≡ some v =
            ap (answer id timeline) (sym e) ∙ h in
          let same : new_view d (events_through id d.event_seq timeline) ≡ v = cc it in
          subst Shown same (new_view-Shown id d timeline)
    ]
