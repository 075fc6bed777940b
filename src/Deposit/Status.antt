-- ===== src/Deposit/Status.antt =====
-- src/deposit/mod.rs: `DepositStatus`, its wire names and their parser.
use gum_server.Prelude.{Bool, true, false, String, Option, none, some, str_eq, if◌then◌else◌}

pub data DepositStatus : Type 0 where
  pending partial_paid paid settled failed expired : DepositStatus

unfoldable pub as_str : DepositStatus → String
as_str pending = "pending"
as_str partial_paid = "partial_paid"
as_str paid = "paid"
as_str settled = "settled"
as_str failed = "failed"
as_str expired = "expired"

unfoldable pub is_terminal : DepositStatus → Bool
is_terminal settled = true
is_terminal failed = true
is_terminal expired = true
is_terminal _ = false

unfoldable pub parse : String → Option DepositStatus
parse raw =
    if str_eq raw "pending"
    then some pending
    else if str_eq raw "partial_paid"
    then some partial_paid
    else if str_eq raw "paid"
    then some paid
    else if str_eq raw "settled"
    then some settled
    else if str_eq raw "failed"
    then some failed
    else if str_eq raw "expired"
    then some expired
    else none

-- `status = …` of a WHERE clause.
abbrev pub is_paid : DepositStatus → Bool
is_paid paid = true
is_paid _ = false

abbrev pub is_failed : DepositStatus → Bool
is_failed failed = true
is_failed _ = false

-- `status IN ('pending', 'partial_paid')`
abbrev pub is_open : DepositStatus → Bool
is_open pending = true
is_open partial_paid = true
is_open _ = false
