-- ===== src/Chain/Revert.antt =====
-- src/chain/revert.rs: the reason in the revert data of `PaymentFactory.execute`, as text and as the
-- view that apps get. The ABI decoding of each Solidity error is a parameter.
pub mod View
pub mod Levels
use Prim.Native.Char.{code}
use Prim.Native.String.{◌++◌}
use gum_server.Prelude.{
  ℕ, ◌^◌, String, Bool, true, false, Option, none, some, List, [], ◌∷◌, ◌==◌, str_eq, if◌then◌else◌,
  length, take, leb, ltb,
}
use gum_server.Prelude.Text.{before_paren, decimal, hex, hex_address, hex_bytes}
use gum_server.Deposit.{CallView}

pub data PaymentError : Type 0 where
  insufficient_token_balance : ℕ → ℕ → PaymentError
  call_failed : ℕ → List ℕ → PaymentError
  call_target_has_no_code : ℕ → ℕ → PaymentError
  amount_not_spent : ℕ → PaymentError

pub data FactoryError : Type 0 where
  already_deployed deployment_failed : FactoryError
  init_code_too_large : ℕ → FactoryError

-- `ICallTargetErrors`: the custom errors that call targets are known to revert with.
pub data TargetError : Type 0 where
  erc20_insufficient_balance : ℕ → ℕ → ℕ → TargetError
  erc20_invalid_sender : ℕ → TargetError
  erc20_invalid_receiver : ℕ → TargetError
  erc20_insufficient_allowance : ℕ → ℕ → ℕ → TargetError
  erc20_invalid_approver : ℕ → TargetError
  erc20_invalid_spender : ℕ → TargetError
  enforced_pause : TargetError
  account_is_frozen : ℕ → TargetError
  transfer_paused : TargetError
  insufficient_balance : TargetError
  insufficient_allowance : TargetError
  transfer_failed : TargetError
  transfer_from_failed : TargetError
  approve_failed : TargetError

-- `custom`: the signature and the arguments as text.
pub record CustomError : Type 0 where
  pub signature : String
  pub args : List (String × String)

abbrev custom_error : TargetError → CustomError
custom_error (erc20_insufficient_balance a b c) = record {
  signature = "ERC20InsufficientBalance(address,uint256,uint256)";
  args = ("sender", hex_address a) ∷ ("balance", decimal b) ∷ ("needed", decimal c) ∷ [];
}
custom_error (erc20_invalid_sender a) = record {
  signature = "ERC20InvalidSender(address)";
  args = ("sender", hex_address a) ∷ [];
}
custom_error (erc20_invalid_receiver a) = record {
  signature = "ERC20InvalidReceiver(address)";
  args = ("receiver", hex_address a) ∷ [];
}
custom_error (erc20_insufficient_allowance a b c) = record {
  signature = "ERC20InsufficientAllowance(address,uint256,uint256)";
  args = ("spender", hex_address a) ∷ ("allowance", decimal b) ∷ ("needed", decimal c) ∷ [];
}
custom_error (erc20_invalid_approver a) = record {
  signature = "ERC20InvalidApprover(address)";
  args = ("approver", hex_address a) ∷ [];
}
custom_error (erc20_invalid_spender a) = record {
  signature = "ERC20InvalidSpender(address)";
  args = ("spender", hex_address a) ∷ [];
}
custom_error enforced_pause = record { signature = "EnforcedPause()"; args = [] }
custom_error (account_is_frozen a) = record {
  signature = "AccountIsFrozen(address)";
  args = ("frozenAccount", hex_address a) ∷ [];
}
custom_error transfer_paused = record { signature = "TransferPaused()"; args = [] }
custom_error insufficient_balance = record { signature = "InsufficientBalance()"; args = [] }
custom_error insufficient_allowance = record { signature = "InsufficientAllowance()"; args = [] }
custom_error transfer_failed = record { signature = "TransferFailed()"; args = [] }
custom_error transfer_from_failed = record { signature = "TransferFromFailed()"; args = [] }
custom_error approve_failed = record { signature = "ApproveFailed()"; args = [] }

-- What `alloy` decodes: each error's own decoder, `none` where the data is not that error's. The
-- four last are `Error(string)`, `Panic(uint256)`, the kind of a panic code, and
-- the recipient and amount of a `transfer` call.
pub record AbiDecoder : Type 0 where
  pub payment_error : List ℕ → Option PaymentError
  pub factory_error : List ℕ → Option FactoryError
  pub target_error : List ℕ → Option TargetError
  pub revert_string : List ℕ → Option String
  pub panic_code : List ℕ → Option ℕ
  pub panic_kind : ℕ → Option String
  pub transfer_call : List ℕ → Option (ℕ × ℕ)

pub data Reason : Type 0 where
  insufficient_token_balance : ℕ → ℕ → Reason
  call_failed : ℕ → List ℕ → Reason → Reason
  call_target_has_no_code : ℕ → ℕ → Reason
  amount_not_spent : ℕ → Reason
  already_deployed deployment_failed : Reason
  init_code_too_large : ℕ → Reason
  message : String → Reason
  panic : ℕ → Reason
  custom : CustomError → Reason
  empty : Reason
  unrecognised : List ℕ → Reason

-- `usize::try_from(index).ok().and_then(|i| calls.get(i))`
abbrev pub nth : ℕ → List CallView → Option CallView
nth i [] = none
nth ℕ.zero (c ∷ cs) = some c
nth (ℕ.suc i) (c ∷ cs) = nth i cs

-- A NUL is escaped: PostgreSQL's TEXT and JSONB refuse it.
unfoldable pub sanitize : String → String
sanitize String.[] = ""
sanitize (String.◌∷◌ c s) =
    let rest = sanitize s in if code c == 0 then "\\0" ++ rest else String.◌∷◌ c rest

abbrev failed_text : String → String → String
failed_text call reason = "settlement " ++ (call ++ (" reverted: " ++ reason))

abbrev arg_texts : List (String × String) → String
arg_texts [] = ""
arg_texts ((k, v) ∷ []) = k ++ (": " ++ v)
arg_texts ((k, v) ∷ rest) = k ++ (": " ++ (v ++ (", " ++ arg_texts rest)))

module _ (abi : AbiDecoder) where
  unfoldable pub decode_call : List ℕ → Reason
  unfolding sanitize
  decode_call [] = empty
  decode_call (b ∷ bs) = elim (abi.revert_string (b ∷ bs)) [
    | some text ↦ message (sanitize text)
    | none ↦ elim (abi.panic_code (b ∷ bs)) [
      | some c ↦ panic c
      | none ↦ elim (abi.target_error (b ∷ bs)) [
        | some e ↦ custom (custom_error e)
        | none ↦ unrecognised (b ∷ bs)
      ]
    ]
  ]

  abbrev of_payment_error : PaymentError → Reason
  of_payment_error (insufficient_token_balance b r) = insufficient_token_balance b r
  of_payment_error (call_failed i d) = call_failed i d (decode_call d)
  of_payment_error (call_target_has_no_code i t) = call_target_has_no_code i t
  of_payment_error (amount_not_spent r) = amount_not_spent r

  abbrev of_factory_error : FactoryError → Reason
  of_factory_error already_deployed = already_deployed
  of_factory_error deployment_failed = deployment_failed
  of_factory_error (init_code_too_large n) = init_code_too_large n

  unfoldable pub decode_execute : List ℕ → Reason
  unfolding decode_call
  decode_execute bytes = elim (abi.payment_error bytes) [
    | some e ↦ of_payment_error e
    | none ↦ elim (abi.factory_error bytes) [
      | some e ↦ of_factory_error e
      | none ↦ decode_call bytes
    ]
  ]

  abbrev describe_call : ℕ → List CallView → String
  describe_call i calls = elim (nth i calls) [
    | none ↦ "call " ++ decimal i
    | some c ↦ elim (abi.transfer_call c.calldata) [
      | some (to, amount) ↦
          "call "
          ++ (decimal i
              ++ (" (transfer of " ++ (decimal amount ++ (" to " ++ (hex_address to ++ ")")))))
      | none ↦ "call " ++ (decimal i ++ (" (to " ++ (hex_address c.target ++ ")")))
    ]
  ]

  abbrev panic_text : ℕ → String
  panic_text c = elim (if ltb c (2 ^ 32) then abi.panic_kind c else none) [
    | some kind ↦ "panic " ++ (hex c ++ (" (" ++ (kind ++ ")")))
    | none ↦ "panic " ++ hex c
  ]

  abbrev unrecognised_text : List ℕ → String
  unrecognised_text bytes =
      if leb 4 (length bytes)
      then "an unrecognised error (selector 0x" ++ (hex_bytes (take 4 bytes) ++ ")")
      else "unrecognised data 0x" ++ hex_bytes bytes

  -- A call target's reason, as it reads after "reverted: ". The own errors of `Payment` and its
  -- factory read as they do on their own, with no calls to refer to.
  unfoldable pub describe_call_reason : Reason → String
  describe_call_reason (insufficient_token_balance balance required) =
      "the payment address holds "
      ++ (decimal balance ++ (", less than the " ++ (decimal required ++ " it settles")))
  describe_call_reason (call_failed i d r) =
      failed_text (describe_call i []) (describe_call_reason r)
  describe_call_reason (call_target_has_no_code i target) =
      "settlement call "
      ++ (decimal i ++ (" targets " ++ (hex_address target ++ ", which has no code on this chain")))
  describe_call_reason (amount_not_spent remaining) =
      "the settlement calls succeeded but left "
      ++ (decimal remaining
          ++ " of the amount unspent (a token that returns false instead of reverting does this)")
  describe_call_reason already_deployed =
      "the payment was already executed: an earlier execute went through, and its receipt says whether it settled or went to recovery"
  describe_call_reason deployment_failed =
      "the Payment constructor reverted without data (e.g. out of gas)"
  describe_call_reason (init_code_too_large n) =
      "the encoded payment terms are "
      ++ (decimal n ++ " bytes, past EIP-3860's 49,152-byte init-code limit")
  describe_call_reason (message text) = text
  describe_call_reason (panic c) = panic_text c
  describe_call_reason (custom e) = before_paren e.signature ++ ("(" ++ (arg_texts e.args ++ ")"))
  describe_call_reason empty = "no reason given"
  describe_call_reason (unrecognised bytes) = unrecognised_text bytes

  -- One sentence for `failure.message`.
  unfoldable pub describe : List CallView → Reason → String
  unfolding describe_call_reason
  describe calls (call_failed i d r) = failed_text (describe_call i calls) (describe_call_reason r)
  describe calls (message text) = "reverted: " ++ text
  describe calls (panic c) = "reverted: " ++ panic_text c
  describe calls (custom e) =
      if str_eq e.signature "TransferFailed()"
      then "the payment's own transfer of the token to the recovery address failed"
      else "reverted: " ++ describe_call_reason (custom e)
  describe calls empty = "reverted: no reason given"
  describe calls (unrecognised bytes) = "reverted: " ++ unrecognised_text bytes
  describe calls own = describe_call_reason own
