-- ===== src/Prelude/Json.antt =====
-- serde_json's `Value`, the payload of events and jobs. A number that is a u64 is kept as that
-- number, any other one as its text. An object is its members in order.
use Prim.Native.Nat.{ℕ}
use Prim.Native.String.{String}
use mathlib.Core.Bool.{Bool}
use mathlib.Core.Option.{Option, none, some}
use gum_server.Prelude.Tests.{str_eq, if◌then◌else◌}

mutual
  pub data Value : Type 0 where
    null : Value
    boolean : Bool → Value
    number : ℕ → Value
    other_number : String → Value
    string : String → Value
    array : Items → Value
    object : Fields → Value

  pub data Items : Type 0 where
    nil : Items
    cons : Value → Items → Items

  pub data Fields : Type 0 where
    end : Fields
    field : String → Value → Fields → Fields

-- `Map::get`
unfoldable pub get_field : String → Fields → Option Value
get_field k end = none
get_field k (field j v fs) = if str_eq j k then some v else get_field k fs

-- `Map::insert`: the value of a key that is there is replaced.
unfoldable pub insert_field : String → Value → Fields → Fields
insert_field k v end = field k v end
insert_field k v (field j w fs) =
    if str_eq j k then field k v fs else field j w (insert_field k v fs)

-- `as_object_mut` then `insert`: anything but an object is left alone.
unfoldable pub with_field : String → Value → Value → Value
unfolding insert_field
with_field k v (object fs) = object (insert_field k v fs)
with_field k v other = other

-- `Value::get`: `none` unless the value is an object with that key.
unfoldable pub get_value : String → Value → Option Value
unfolding get_field
get_value k (object fs) = get_field k fs
get_value k other = none

abbrev pub empty_object : Value
empty_object = object end

-- `json!` of an optional text or number: `none` is null.
abbrev pub opt_string : Option String → Value
opt_string none = null
opt_string (some s) = string s

abbrev pub opt_number : Option ℕ → Value
opt_number none = null
opt_number (some n) = number n
