-- ===== src/Relay/Terms.antt =====
-- src/deposit/relay.rs: how the checks read the members of a quote. The parsers of addresses, of
-- uint256 and of hexadecimal bytes are libraries: parameters.
use gum_server.Prelude.{
  ℕ, String, Bool, true, false, Option, none, some, List, [], ◌∷◌, ◌==◌, str_eq, if◌then◌else◌,
  unwrap_or, any,
}
use gum_server.Prelude.Json.{Value, number, string, array, object, Items, nil, cons, get_value}
use gum_server.Prelude.Ascii.{codes, trim, lower, parse_u64}

-- `str::parse::<Address>`, `U256::from_str_radix(_, 10)` and `hex::decode`
pub record Parsers : Type 0 where
  pub address : String → Option ℕ
  pub uint : String → Option ℕ
  pub bytes : String → Option (List ℕ)

-- `Value::as_str`, `as_u64` and `as_array`
abbrev pub str_of : Option Value → Option String
str_of (some (string s)) = some s
str_of other = none

abbrev pub as_u64 : Option Value → Option ℕ
as_u64 (some (number n)) = some n
as_u64 other = none

abbrev pub list_of : Items → List Value
list_of nil = []
list_of (cons v vs) = v ∷ list_of vs

abbrev pub as_array : Option Value → Option (List Value)
as_array (some (array vs)) = some (list_of vs)
as_array other = none

abbrev pub is_object : Value → Bool
is_object (object fs) = true
is_object other = false

-- `filter(|v| v.is_object())`
abbrev pub as_object : Option Value → Option Value
as_object (some v) = if is_object v then some v else none
as_object none = none

-- A text member, empty where there is none.
unfoldable pub text_of : String → Value → String
unfolding get_value
text_of k v = unwrap_or (str_of (get_value k v)) ""

module _ (px : Parsers) where
  unfoldable pub same_address : String → ℕ → Bool
  same_address raw want = elim (px.address raw) [ none ↦ false | some a ↦ a == want ]

  unfoldable pub base_units : Option String → Option ℕ
  unfolding trim
  base_units none = none
  base_units (some s) = px.uint (trim s)

abbrev names_chain : List String → String → Bool
names_chain names spelled = any (λ name. str_eq name (lower spelled)) names

abbrev spells_chain : ℕ → List String → String → Bool
spells_chain id names spelled = elim (parse_u64 (codes spelled)) [
  | some n ↦ n == id
  | none ↦ names_chain names spelled
]

unfoldable pub is_chain : Option Value → ℕ → List String → Bool
unfolding trim parse_u64 lower
is_chain (some (number n)) id names = n == id
is_chain (some (string s)) id names = spells_chain id names (trim s)
is_chain other id names = false
