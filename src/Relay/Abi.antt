-- ===== src/Relay/Abi.antt =====
-- src/deposit/relay.rs, `Abi`: reads the ABI-encoded arguments of a call, bounds-checked.
use gum_server.Prelude.{
  ◌≡◌, refl, ℕ, zero, suc, ◌+◌, ◌-◌, ◌*◌, ◌^◌, Bool, true, false, ◌&&◌, Option, none, some, List,
  [], ◌∷◌, ◌==◌, leb, if◌then◌else◌, length, take,
}
use gum_server.Prelude.Refusals.{checked_usize}

-- Dynamic offsets are relative to `base`.
pub record Abi : Type 0 where
  pub bytes : List ℕ
  pub base : ℕ
  pub pos : ℕ

-- `new` and `at`
abbrev pub at_start : List ℕ → Abi
at_start bytes = record { bytes = bytes; base = 0; pos = 0 }

abbrev pub at_offset : List ℕ → ℕ → Abi
at_offset bytes at = record { bytes = bytes; base = at; pos = at }

abbrev pub Read : Type 0 → Type 0
Read A = Abi → Option (A × Abi)

infixl 5 ◌>>=◌
abbrev pub pure : {A : Type 0} → A → Read A
pure a r = some (a, r)

abbrev pub fail : {A : Type 0} → Read A
fail r = none

abbrev pub ◌>>=◌ : {A B : Type 0} → Read A → (A → Read B) → Read B
◌>>=◌ m f r = elim (m r) [ none ↦ none | some (a, r') ↦ f a r' ]

-- Reads elsewhere in the bytes: what is read there does not move this reader.
abbrev pub elsewhere : {A : Type 0} → ℕ → Read A → Read A
elsewhere at m r = elim (m (at_offset r.bytes at)) [ none ↦ none | some (a, r') ↦ some (a, r) ]

abbrev pub lift : {A : Type 0} → Option A → Read A
lift none r = none
lift (some a) r = some (a, r)

abbrev pub skip : ℕ → List ℕ → List ℕ
skip zero bs = bs
skip (suc n) [] = []
skip (suc n) (b ∷ bs) = skip n bs

-- `bytes.get(from..to)`
unfoldable pub slice : ℕ → ℕ → List ℕ → Option (List ℕ)
slice from to bytes =
    if leb from to && leb to (length bytes) then some (take (to - from) (skip from bytes)) else none

abbrev be_bytes : ℕ → List ℕ → ℕ
be_bytes acc [] = acc
be_bytes acc (b ∷ bs) = be_bytes (acc * 256 + b) bs

-- `U256::from_be_slice`, `Address::from_slice`
unfoldable pub from_be : List ℕ → ℕ
from_be bs = be_bytes 0 bs

abbrev all_zero : List ℕ → Bool
all_zero [] = true
all_zero (b ∷ bs) = b == 0 && all_zero bs

unfoldable pub word : Read (List ℕ)
unfolding slice
word r = elim (checked_usize r.pos 32) [
  | none ↦ none
  | some to ↦ elim (slice r.pos to r.bytes) [
    | none ↦ none
    | some w ↦ some (w, record r { pos = to })
  ]
]

abbrev address_of : List ℕ → Option ℕ
address_of w = if all_zero (take 12 w) then some (from_be (skip 12 w)) else none

unfoldable pub address : Read ℕ
unfolding word from_be
address = word >>= λ w. lift (address_of w)

unfoldable pub uint : Read ℕ
unfolding word from_be
uint = word >>= λ w. pure (from_be w)

-- `MAX_ABI_OFFSET`, `MAX_ABI_BYTES` and `MAX_ABI_ITEMS`
abbrev pub max_abi_offset : ℕ
max_abi_offset = 2 ^ 20

abbrev pub max_abi_bytes : ℕ
max_abi_bytes = 8192

abbrev pub max_abi_items : ℕ
max_abi_items = 8

abbrev pub at_most : ℕ → ℕ → Option ℕ
at_most limit n = if leb n limit then some n else none

unfoldable pub offset : Read ℕ
unfolding uint
offset = uint >>= λ n. lift (at_most max_abi_offset n)

-- `self.base.checked_add(self.offset()?)?`
unfoldable pub target : Read ℕ
unfolding offset
target r = elim (offset r) [ none ↦ none | some (off, r') ↦ lift (checked_usize r.base off) r' ]

-- `at.checked_add(32)?`, then `.checked_add(len)?`, and the bytes between them
abbrev data_at : ℕ → ℕ → List ℕ → Option (List ℕ)
data_at at len bytes = elim (checked_usize at 32) [
  | none ↦ none
  | some from ↦ elim (checked_usize from len) [ none ↦ none | some to ↦ slice from to bytes ]
]

-- The length of a dynamic argument, then the rest of it at the position behind the length.
unfoldable pub bytes_at : ℕ → Read (List ℕ)
unfolding uint slice
bytes_at at r = elim (uint r) [
  | none ↦ none
  | some (n, r') ↦ elim (at_most max_abi_bytes n) [
    | none ↦ none
    | some len ↦ elim (data_at at len r.bytes) [ none ↦ none | some bs ↦ some (bs, r') ]
  ]
]

-- `Abi::bytes`
unfoldable pub bytes_arg : Read (List ℕ)
unfolding target bytes_at
bytes_arg = target >>= λ at. elsewhere at (bytes_at at)

unfoldable pub items : {A : Type 0} → ℕ → Read A → Read (List A)
items zero item = pure []
items (suc n) item = do x ← item; xs ← items n item; pure (x ∷ xs)

abbrev rebase : Read (Unit {0})
rebase r = some (tt, record r { base = r.pos })

-- The length of an array, then its items, whose offsets are relative to the place behind the length.
unfoldable pub items_here : {A : Type 0} → Read A → Read (List A)
unfolding uint items
items_here item = do n ← uint; len ← lift (at_most max_abi_items n); rebase >>= λ _. items len item

unfoldable pub static_items : {A : Type 0} → Read A → Read (List A)
unfolding target items_here
static_items item = target >>= λ at. elsewhere at (items_here item)

pub record NestedCall : Type 0 where
  pub target : ℕ
  pub allow_failure : Bool
  pub value : ℕ
  pub calldata : List ℕ

abbrev boolean_of : ℕ → Option Bool
boolean_of n = if n == 0 then some false else if n == 1 then some true else none

unfoldable pub nested_call_here : Read NestedCall
unfolding address uint bytes_arg
nested_call_here = do
  to ← address
  raw ← uint
  allow_failure ← lift (boolean_of raw)
  value ← uint
  calldata ← bytes_arg
  pure (record { target = to; allow_failure = allow_failure; value = value; calldata = calldata })

unfoldable pub nested_call : Read NestedCall
unfolding target nested_call_here
nested_call = target >>= λ at. elsewhere at nested_call_here

unfoldable pub nested_calls : Read (List NestedCall)
unfolding static_items nested_call
nested_calls = static_items nested_call

module _ {A B : Type 0} where
  read-cases :
      (f : A → Read B) (o : Option (A × Abi)) {b : B × Abi}
      → elim o [ none ↦ none | some (a, r') ↦ f a r' ] ≡ some b
      → (a : A) × (r' : Abi) × (o ≡ some (a, r')) × (f a r' ≡ some b)
  read-cases f none h = cc
  read-cases f (some (a, r')) h = (a, r', refl, h)

  -- Inversion of a read that succeeds.
  pub >>=-some :
      (m : Read A) (f : A → Read B) (r : Abi) {b : B × Abi}
      → (m >>= f) r ≡ some b
      → (a : A) × (r' : Abi) × (m r ≡ some (a, r')) × (f a r' ≡ some b)
  >>=-some m f r h = read-cases f (m r) h
