-- ===== src/Outbox/Schedule.antt =====
-- src/outbox/mod.rs, `schedule`: the retry policy of each kind of job.
use Prim.Native.Nat.{min}
use gum_server.Prelude.{ℕ, ◌+◌, ◌-◌, ◌*◌, ◌/◌, ◌^◌, Bool, true, false, ltb, if◌then◌else◌}
use gum_server.Store.Db.{JobKind, notify_app}

-- The settings that `schedule` reads, from `webhooks` and `outbox` of src/config.rs.
pub record RetryConfig : Type 0 where
  pub retry_base_ms : ℕ
  pub retry_cap_ms : ℕ
  pub max_age_secs : ℕ
  pub upstream_retry_cap_ms : ℕ

pub data Schedule : Type 0 where
  retry_after : ℕ → Schedule
  give_up : Schedule

-- A jitter is a multiple of 2 ^ -53 below 1.
abbrev pub jitter_unit : ℕ
jitter_unit = 2 ^ 53

abbrev pub is_notify : JobKind → Bool
is_notify notify_app = true
is_notify _ = false

abbrev pub cap_of : RetryConfig → JobKind → ℕ
cap_of c k = if is_notify k then c.retry_cap_ms else c.upstream_retry_cap_ms

abbrev pub too_old : RetryConfig → JobKind → ℕ → Bool
too_old c k age = if is_notify k then ltb c.max_age_secs age else false

-- Upwards from the base, doubling with each attempt up to the cap; in milliseconds, rounded down.
unfoldable pub schedule : RetryConfig → JobKind → ℕ → ℕ → ℕ → Schedule
schedule c k attempts age jitter =
    if too_old c k age
    then give_up
    else let upper = min (c.retry_base_ms * 2 ^ min (attempts - 1) 30) (cap_of c k) in
      retry_after (c.retry_base_ms + jitter * (upper - c.retry_base_ms) / jitter_unit)
