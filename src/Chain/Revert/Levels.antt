-- ===== src/Chain/Revert/Levels.antt =====
-- src/chain/revert.rs: what an app can rely on at every level of a `RevertView`.
use gum_server.Prelude.{ℕ, ◌≡◌, Bool, true, false, List, [], ◌∷◌, All, is_some, arith}
use gum_server.Deposit.{CallView}
use gum_server.Chain.Revert.{
  AbiDecoder, Reason, insufficient_token_balance, call_failed, call_target_has_no_code,
  amount_not_spent, already_deployed, deployment_failed, init_code_too_large, message, panic,
  custom, empty, unrecognised, decode_execute,
}
use gum_server.Chain.Revert.View.{
  signature, name, RevertKind, decoded, no_data, unknown, Level, RevertView, leaf, nested, level,
  view_of, of_execute,
}

abbrev is_decoded : RevertKind → Bool
is_decoded decoded = true
is_decoded no_data = false
is_decoded unknown = false

-- The level of the call itself, then those of the call's own revert.
abbrev pub levels : RevertView → List Level
levels (leaf l) = l ∷ []
levels (nested l v) = l ∷ levels v

pub record IsNamed (l : Level) : Type 0 where
  pub with_name : is_some l.name ≡ is_decoded l.kind
  pub with_signature : is_some l.signature ≡ is_decoded l.kind
  pub with_args : is_some l.args ≡ is_decoded l.kind

level-IsNamed :
    (bytes : List ℕ) (r : Reason) (calls : List CallView) → IsNamed (level bytes r calls)
unfolding name signature
level-IsNamed bytes r calls = ground arith

leaf-IsNamed :
    (bytes : List ℕ) (r : Reason) (calls : List CallView)
    → All IsNamed (levels (leaf (level bytes r calls)))
leaf-IsNamed bytes r calls = (level-IsNamed bytes r calls, tt)

view_of-IsNamed :
    (bytes : List ℕ) (r : Reason) (calls : List CallView)
    → All IsNamed (levels (view_of bytes r calls))
unfolding view_of
view_of-IsNamed bytes (call_failed i d r) calls =
    (level-IsNamed bytes (call_failed i d r) calls, view_of-IsNamed d r [])
view_of-IsNamed bytes (insufficient_token_balance b r) calls =
    leaf-IsNamed bytes (insufficient_token_balance b r) calls
view_of-IsNamed bytes (call_target_has_no_code i t) calls =
    leaf-IsNamed bytes (call_target_has_no_code i t) calls
view_of-IsNamed bytes (amount_not_spent r) calls = leaf-IsNamed bytes (amount_not_spent r) calls
view_of-IsNamed bytes already_deployed calls = leaf-IsNamed bytes already_deployed calls
view_of-IsNamed bytes deployment_failed calls = leaf-IsNamed bytes deployment_failed calls
view_of-IsNamed bytes (init_code_too_large n) calls =
    leaf-IsNamed bytes (init_code_too_large n) calls
view_of-IsNamed bytes (message m) calls = leaf-IsNamed bytes (message m) calls
view_of-IsNamed bytes (panic c) calls = leaf-IsNamed bytes (panic c) calls
view_of-IsNamed bytes (custom e) calls = leaf-IsNamed bytes (custom e) calls
view_of-IsNamed bytes empty calls = leaf-IsNamed bytes empty calls
view_of-IsNamed bytes (unrecognised b) calls = leaf-IsNamed bytes (unrecognised b) calls

-- Whatever the revert data of an execution decodes to, each level of its view has a name, a signature
-- and arguments if the level's kind is decoded, and none of them otherwise.
pub of_execute-IsNamed :
    (abi : AbiDecoder) (bytes : List ℕ) (calls : List CallView)
    → All IsNamed (levels (of_execute abi bytes calls))
unfolding of_execute
of_execute-IsNamed abi bytes calls = view_of-IsNamed bytes (decode_execute abi bytes) calls
