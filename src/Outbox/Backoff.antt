-- ===== src/Outbox/Backoff.antt =====
-- The delays of `schedule`.
use Prim.Native.Nat.{min, max}
use native.Mathlib.Nat.{mul-le-mul_right}
use gum_server.Prelude.{
  ℕ, ◌+◌, ◌-◌, ◌*◌, ◌/◌, ◌^◌, ◌≤◌, ◌<◌, ◌≡◌, ◌⊎◌, inl, inr, refl, true, false, arith, ltb,
  Bool-cases,
}
use gum_server.Store.Db.{JobKind, notify_app, register_watch, submit_execute, unknown_kind}
use gum_server.Outbox.Schedule.{
  RetryConfig, retry_after, give_up, jitter_unit, cap_of, is_notify, too_old, schedule,
}

scaled-≤ : (j w : ℕ) → j < jitter_unit → j * w / jitter_unit ≤ w
scaled-≤ j w h =
    let k : j * w ≤ jitter_unit * w = mul-le-mul_right {m = j} {n = jitter_unit} w (omega arith) in
    omega arith

-- A delay of `schedule`: from the base up to the kind's cap, or the base where that is above it.
abbrev pub IsDelay : RetryConfig → JobKind → ℕ → Type 0
IsDelay c kind delay = (c.retry_base_ms ≤ delay) × (delay ≤ max c.retry_base_ms (cap_of c kind))

module _ (c : RetryConfig) (kind : JobKind) (attempts age jitter : ℕ) where
  schedule-old : too_old c kind age ≡ true → schedule c kind attempts age jitter ≡ give_up
  unfolding schedule
  schedule-old e = rw e refl

  schedule-young :
      jitter < jitter_unit
      → too_old c kind age ≡ false
      → (delay : ℕ) × (schedule c kind attempts age jitter ≡ retry_after delay)
        × IsDelay c kind delay
  unfolding schedule
  schedule-young h e =
      let cap = cap_of c kind in
      let upper = min (c.retry_base_ms * 2 ^ min (attempts - 1) 30) cap in
      let spread = upper - c.retry_base_ms in
      let small : jitter * spread / jitter_unit ≤ spread = scaled-≤ jitter spread h in
      (
        c.retry_base_ms + jitter * spread / jitter_unit,
        rw e refl,
        (omega arith, omega (arith, small)),
      )

-- With a jitter below 1: a job is given up exactly if it is a notification older than its window;
-- any other job is delayed by the base at least and by the greater of base and its kind's cap at most.
pub schedule-bounds :
    (c : RetryConfig) (kind : JobKind) (attempts age jitter : ℕ)
    → jitter < jitter_unit
    → ((kind ≡ notify_app)
        × (c.max_age_secs < age)
        × (schedule c kind attempts age jitter ≡ give_up))
      ⊎ (((is_notify kind ≡ false) ⊎ (age ≤ c.max_age_secs))
          × (delay : ℕ) × (schedule c kind attempts age jitter ≡ retry_after delay)
          × IsDelay c kind delay)
schedule-bounds c notify_app attempts age jitter h = elim (Bool-cases (ltb c.max_age_secs age)) [
  | inl e ↦ inl (refl, ground arith, schedule-old c notify_app attempts age jitter e)
  | inr e ↦
      let (delay, eq, bounds) = schedule-young c notify_app attempts age jitter h e in
      inr (inr (ground arith), delay, eq, bounds)
]
schedule-bounds c register_watch attempts age jitter h =
    let (delay, eq, bounds) = schedule-young c register_watch attempts age jitter h refl in
    inr (inl refl, delay, eq, bounds)
schedule-bounds c submit_execute attempts age jitter h =
    let (delay, eq, bounds) = schedule-young c submit_execute attempts age jitter h refl in
    inr (inl refl, delay, eq, bounds)
schedule-bounds c (unknown_kind s) attempts age jitter h =
    let (delay, eq, bounds) = schedule-young c (unknown_kind s) attempts age jitter h refl in
    inr (inl refl, delay, eq, bounds)
