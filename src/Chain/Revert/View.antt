-- ===== src/Chain/Revert/View.antt =====
-- src/chain/revert.rs: the name, signature, arguments and metrics label of a reason, and
-- `RevertView`, the shape in which apps get it.
use Prim.Native.String.{◌++◌}
use gum_server.Prelude.{
  ℕ, String, Option, none, some, List, [], ◌∷◌, if◌then◌else◌, length, take, leb,
}
use gum_server.Prelude.Json.{Value, string, number, object, Fields, field, end}
use gum_server.Prelude.Text.{before_paren, decimal, hex_address, hex_bytes}
use gum_server.Deposit.{CallView}
use gum_server.Chain.Revert.{
  Reason, insufficient_token_balance, call_failed, call_target_has_no_code, amount_not_spent,
  already_deployed, deployment_failed, init_code_too_large, message, panic, custom, empty,
  unrecognised, AbiDecoder, nth, decode_execute,
}

unfoldable pub signature : Reason → Option String
signature (insufficient_token_balance b r) = some "InsufficientTokenBalance(uint256,uint256)"
signature (call_failed i d r) = some "CallFailed(uint256,bytes)"
signature (call_target_has_no_code i t) = some "CallTargetHasNoCode(uint256,address)"
signature (amount_not_spent r) = some "AmountNotSpent(uint256)"
signature already_deployed = some "AlreadyDeployed()"
signature deployment_failed = some "DeploymentFailed()"
signature (init_code_too_large n) = some "InitCodeTooLarge(uint256)"
signature (message m) = some "Error(string)"
signature (panic c) = some "Panic(uint256)"
signature (custom e) = some e.signature
signature empty = none
signature (unrecognised bytes) = none

-- The part of the signature before its parenthesis.
unfoldable pub name : Reason → Option String
unfolding signature before_paren
name r = elim (signature r) [ none ↦ none | some s ↦ some (before_paren s) ]

unfoldable pub args : Reason → List (String × String)
args (insufficient_token_balance b r) = ("balance", decimal b) ∷ ("required", decimal r) ∷ []
args (call_failed i d r) = ("index", decimal i) ∷ []
args (call_target_has_no_code i t) = ("index", decimal i) ∷ ("target", hex_address t) ∷ []
args (amount_not_spent r) = ("remaining", decimal r) ∷ []
args (message m) = ("message", m) ∷ []
args (panic c) = ("code", decimal c) ∷ []
args (custom e) = e.args
args (init_code_too_large n) = ("length", decimal n) ∷ []
args already_deployed = []
args deployment_failed = []
args empty = []
args (unrecognised bytes) = []

-- The name of a reason, `empty` or `unrecognised`.
abbrev short_label : Reason → String
short_label empty = "empty"
short_label (unrecognised bytes) = "unrecognised"
short_label other = elim (name other) [ none ↦ "" | some n ↦ n ]

unfoldable pub label : Reason → String
unfolding name
label (call_failed i d r) = "CallFailed:" ++ short_label r
label other = short_label other

-- `Decoded`, `Empty` and `Unrecognised`.
pub data RevertKind : Type 0 where
  decoded no_data unknown : RevertKind

pub record CallRef : Type 0 where
  pub index : ℕ
  pub target : String

-- One level of revert data.
pub record Level : Type 0 where
  pub kind : RevertKind
  pub raw : String
  pub selector : Option String
  pub name : Option String
  pub signature : Option String
  pub args : Option (List (String × String))
  pub call : Option CallRef

-- `nested` carries the call's own revert.
pub data RevertView : Type 0 where
  leaf : Level → RevertView
  nested : Level → RevertView → RevertView

abbrev pub kind_of : Reason → RevertKind
kind_of empty = no_data
kind_of (unrecognised bytes) = unknown
kind_of _ = decoded

abbrev call_ref : ℕ → List CallView → Option CallRef
call_ref i calls = elim (nth i calls) [
  | none ↦ none
  | some c ↦ some (record { index = i; target = hex_address c.target })
]

abbrev call_of : Reason → List CallView → Option CallRef
call_of (call_failed i d r) calls = call_ref i calls
call_of (call_target_has_no_code i t) calls = call_ref i calls
call_of _ calls = none

abbrev args_if : RevertKind → List (String × String) → Option (List (String × String))
args_if decoded xs = some xs
args_if _ xs = none

abbrev pub level : List ℕ → Reason → List CallView → Level
level bytes r calls = record {
  kind = kind_of r;
  raw = "0x" ++ hex_bytes bytes;
  selector = if leb 4 (length bytes) then some ("0x" ++ hex_bytes (take 4 bytes)) else none;
  name = name r;
  signature = signature r;
  args = args_if (kind_of r) (args r);
  call = call_of r calls;
}

unfoldable pub view_of : List ℕ → Reason → List CallView → RevertView
view_of bytes (call_failed i d r) calls =
    nested (level bytes (call_failed i d r) calls) (view_of d r [])
view_of bytes r calls = leaf (level bytes r calls)

unfoldable pub of_execute : AbiDecoder → List ℕ → List CallView → RevertView
unfolding view_of decode_execute
of_execute abi bytes calls = view_of bytes (decode_execute abi bytes) calls

-- `skip_serializing_if = "Option::is_none"`
abbrev optional : String → Option Value → Fields → Fields
optional k none fs = fs
optional k (some v) fs = field k v fs

abbrev text_field : String → Option String → Fields → Fields
text_field k none fs = fs
text_field k (some s) fs = field k (string s) fs

arg_fields : List (String × String) → Fields
arg_fields [] = end
arg_fields ((k, v) ∷ rest) = field k (string v) (arg_fields rest)

abbrev args_json : Option (List (String × String)) → Option Value
args_json none = none
args_json (some xs) = some (object (arg_fields xs))

abbrev call_json : Option CallRef → Option Value
call_json none = none
call_json (some c) =
    some (object (field "index" (number c.index) (field "target" (string c.target) end)))

abbrev kind_text : RevertKind → String
kind_text decoded = "decoded"
kind_text no_data = "empty"
kind_text unknown = "unrecognised"

abbrev level_fields : Level → Fields → Fields
level_fields l rest = field "kind" (string (kind_text l.kind)) (
    field "data" (string l.raw) (
      text_field "selector" l.selector (
        text_field "name" l.name (
          text_field "signature" l.signature
            (optional "args" (args_json l.args) (optional "call" (call_json l.call) rest))))))

-- `json!(view)`
unfoldable pub to_json : RevertView → Value
unfolding arg_fields
to_json (leaf l) = object (level_fields l end)
to_json (nested l v) = object (level_fields l (field "reason" (to_json v) end))
