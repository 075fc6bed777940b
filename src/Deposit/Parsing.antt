-- ===== src/Deposit/Parsing.antt =====
-- src/deposit/mod.rs: `DepositStatus::parse` against `DepositStatus::as_str`.
use text.Mathlib.TextEquality.{eq_iff}
use gum_server.Prelude.{String, ◌≡◌, refl, ◌↔◌, true, some, arith, str_eq}
use gum_server.Deposit.Status.{
  DepositStatus, pending, partial_paid, paid, settled, failed, expired, as_str, parse,
}

parse_of_as_str : (s : DepositStatus) → parse (as_str s) ≡ some s
unfolding parse as_str
parse_of_as_str pending = refl
parse_of_as_str partial_paid = refl
parse_of_as_str paid = refl
parse_of_as_str settled = refl
parse_of_as_str failed = refl
parse_of_as_str expired = refl

str_eq_sound : (s t : String) → str_eq s t ≡ true → s ≡ t
str_eq_sound s t h = (eq_iff s t).0 h

as_str_of_parse : (raw : String) (s : DepositStatus) → parse raw ≡ some s → raw ≡ as_str s
unfolding parse as_str
as_str_of_parse raw s h = ground (
  arith,
  str_eq_sound raw "pending",
  str_eq_sound raw "partial_paid",
  str_eq_sound raw "paid",
  str_eq_sound raw "settled",
  str_eq_sound raw "failed",
  str_eq_sound raw "expired",
)

-- A status is read back from its wire name, and from no other text.
pub parse-as_str :
    (s : DepositStatus) (raw : String)
    → (parse (as_str s) ≡ some s) × ((parse raw ≡ some s) ↔ (raw ≡ as_str s))
parse-as_str s raw = (parse_of_as_str s, (as_str_of_parse raw s, λ e. rw e (parse_of_as_str s)))
