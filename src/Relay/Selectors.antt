-- ===== src/Relay/Selectors.antt =====
-- src/deposit/relay.rs: the calls that a route may make, by their selectors.
use gum_server.Prelude.{
  ℕ, Bool, true, false, ◌&&◌, Option, none, some, List, [], ◌∷◌, ◌==◌, leb, if◌then◌else◌, length,
  take,
}
use gum_server.Relay.Abi.{skip}

abbrev pub bytes_eq : List ℕ → List ℕ → Bool
bytes_eq [] [] = true
bytes_eq [] (c ∷ cs) = false
bytes_eq (b ∷ bs) [] = false
bytes_eq (b ∷ bs) (c ∷ cs) = b == c && bytes_eq bs cs

-- `split_at_checked(4)`
unfoldable pub split_selector : List ℕ → Option (List ℕ × List ℕ)
split_selector bytes = if leb 4 (length bytes) then some (take 4 bytes, skip 4 bytes) else none

-- The payer-facing entrypoints of Relay's contracts, with metadata or in version 2.
pub data Entrypoint : Type 0 where
  deposit_erc20 deposit_erc20_all deposit_native : Entrypoint
  multicall multicall_v2 : Entrypoint
  transfer_and_multicall transfer_and_multicall_v2 : Entrypoint
  forward : Entrypoint
  undecoded : Entrypoint

abbrev pub deposit_erc20_selector : List ℕ
deposit_erc20_selector = 232 ∷ 1 ∷ 121 ∷ 82 ∷ []

-- `DEPOSIT_ERC20`, `DEPOSIT_ERC20_ALL`, `DEPOSIT_NATIVE`, `MULTICALL`, `MULTICALL_V2`,
-- `TRANSFER_AND_MULTICALL`, `TRANSFER_AND_MULTICALL_V2` and `FORWARD`
unfoldable pub entrypoint : List ℕ → Entrypoint
entrypoint s =
    if bytes_eq s deposit_erc20_selector
    then deposit_erc20
    else if bytes_eq s (90 ∷ 30 ∷ 227 ∷ 172 ∷ [])
    then deposit_erc20_all
    else if bytes_eq s (73 ∷ 41 ∷ 12 ∷ 28 ∷ [])
    then deposit_native
    else if bytes_eq s (205 ∷ 110 ∷ 19 ∷ 247 ∷ [])
    then multicall
    else if bytes_eq s (48 ∷ 190 ∷ 85 ∷ 103 ∷ [])
    then multicall_v2
    else if bytes_eq s (249 ∷ 228 ∷ 186 ∷ 180 ∷ [])
    then transfer_and_multicall
    else if bytes_eq s (48 ∷ 135 ∷ 80 ∷ 86 ∷ [])
    then transfer_and_multicall_v2
    else if bytes_eq s (217 ∷ 72 ∷ 212 ∷ 104 ∷ [])
    then forward
    else undecoded

-- The calls on the payer's token.
pub data TokenCall : Type 0 where
  approve_call transfer_call other_call : TokenCall

abbrev pub approve_selector : List ℕ
approve_selector = 9 ∷ 94 ∷ 167 ∷ 179 ∷ []

-- `APPROVE` and `TRANSFER`
unfoldable pub token_call : List ℕ → TokenCall
token_call s =
    if bytes_eq s approve_selector
    then approve_call
    else if bytes_eq s (169 ∷ 5 ∷ 156 ∷ 187 ∷ [])
    then transfer_call
    else other_call

abbrev pub is_deposit : Entrypoint → Bool
is_deposit deposit_erc20 = true
is_deposit deposit_erc20_all = true
is_deposit deposit_native = true
is_deposit other = false

abbrev pub is_multicall : Entrypoint → Bool
is_multicall multicall = true
is_multicall multicall_v2 = true
is_multicall other = false

abbrev pub is_transfer_and_multicall : Entrypoint → Bool
is_transfer_and_multicall transfer_and_multicall = true
is_transfer_and_multicall transfer_and_multicall_v2 = true
is_transfer_and_multicall other = false

abbrev pub is_forward : Entrypoint → Bool
is_forward forward = true
is_forward other = false

-- `starts_with`
abbrev pub starts_with : List ℕ → List ℕ → Bool
starts_with [] bytes = true
starts_with (p ∷ ps) [] = false
starts_with (p ∷ ps) (b ∷ bs) = p == b && starts_with ps bs
