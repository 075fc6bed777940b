-- ===== src/Prelude/Ascii.antt =====
-- Texts read by their characters: `trim`, `to_ascii_lowercase`, hexadecimal digits, `parse::<u64>`.
use Prim.Native.Char.{Char, code, nul, len_utf8}
use Prim.Native.String.{String}
use Prim.Native.Nat.{ℕ, zero, suc, ◌+◌, ◌-◌, ◌*◌, ◌^◌}
use mathlib.Core.Bool.{Bool, true, false, ◌&&◌, ◌||◌}
use mathlib.Core.Option.{Option, none, some}
use mathlib.Core.List.{List, [], ◌∷◌}
use gum_server.Prelude.Tests.{leb, ltb, ◌==◌, if◌then◌else◌}

abbrev pub codes : String → List ℕ
codes String.[] = []
codes (String.◌∷◌ c s) = code c ∷ codes s

-- `str::len`: the bytes of the text in UTF-8
unfoldable pub byte_length : String → ℕ
byte_length String.[] = 0
byte_length (String.◌∷◌ c s) = len_utf8 c + byte_length s

abbrev between : ℕ → ℕ → ℕ → Bool
between a b c = leb a c && leb c b

-- Unicode's White_Space
unfoldable pub is_whitespace : ℕ → Bool
is_whitespace c =
    between 9 13 c
    || c == 32
    || c == 133
    || c == 160
    || c == 5760
    || between 8192 8202 c
    || between 8232 8233 c
    || c == 8239
    || c == 8287
    || c == 12288

abbrev is_empty : String → Bool
is_empty String.[] = true
is_empty (String.◌∷◌ c s) = false

unfoldable pub trim_start : String → String
unfolding is_whitespace
trim_start String.[] = ""
trim_start (String.◌∷◌ c s) =
    let rest = trim_start s in if is_whitespace (code c) then rest else String.◌∷◌ c s

unfoldable pub trim_end : String → String
unfolding is_whitespace
trim_end String.[] = ""
trim_end (String.◌∷◌ c s) =
    let rest = trim_end s in
    if is_whitespace (code c) && is_empty rest then "" else String.◌∷◌ c rest

-- `str::trim`
unfoldable pub trim : String → String
unfolding trim_start trim_end
trim s = trim_end (trim_start s)

unfoldable pub char_at : ℕ → String → Char
char_at n String.[] = nul
char_at zero (String.◌∷◌ c s) = c
char_at (suc n) (String.◌∷◌ c s) = char_at n s

abbrev lower_char : Char → Char
lower_char c =
    if between 65 90 (code c) then char_at (code c - 65) "abcdefghijklmnopqrstuvwxyz" else c

-- `to_ascii_lowercase`
unfoldable pub lower : String → String
unfolding char_at
lower String.[] = ""
lower (String.◌∷◌ c s) = String.◌∷◌ (lower_char c) (lower s)

-- `is_ascii_hexdigit`
unfoldable pub is_hex_digit : ℕ → Bool
is_hex_digit c = between 48 57 c || between 65 70 c || between 97 102 c

abbrev pub all_hex : List ℕ → Bool
all_hex [] = true
all_hex (c ∷ cs) = is_hex_digit c && all_hex cs

-- The decimal digits behind `acc`, below `2 ^ 64`.
unfoldable pub digits_from : ℕ → List ℕ → Option ℕ
digits_from acc [] = some acc
digits_from acc (c ∷ cs) =
    let next = acc * 10 + (c - 48) in
    let rest = digits_from next cs in if between 48 57 c && ltb next (2 ^ 64) then rest else none

abbrev some_digits : List ℕ → Option ℕ
some_digits [] = none
some_digits (c ∷ cs) = digits_from 0 (c ∷ cs)

-- `parse::<u64>`, which takes a leading plus.
unfoldable pub parse_u64 : List ℕ → Option ℕ
unfolding digits_from
parse_u64 [] = none
parse_u64 (c ∷ cs) = if c == 43 then some_digits cs else some_digits (c ∷ cs)

-- The characters behind a first "0x", if the text starts with it.
unfoldable pub after_0x : String → Option String
after_0x String.[] = none
after_0x (String.◌∷◌ c String.[]) = none
after_0x (String.◌∷◌ c (String.◌∷◌ d s)) = if code c == 48 && code d == 120 then some s else none

abbrev upper_char : Char → Char
upper_char c =
    if between 97 122 (code c) then char_at (code c - 97) "ABCDEFGHIJKLMNOPQRSTUVWXYZ" else c

-- `to_ascii_uppercase`
unfoldable pub upper : String → String
upper String.[] = ""
upper (String.◌∷◌ c s) = String.◌∷◌ (upper_char c) (upper s)

-- `is_ascii_digit` of every character
unfoldable pub all_digits : List ℕ → Bool
all_digits [] = true
all_digits (c ∷ cs) = between 48 57 c && all_digits cs

unfoldable pub some_between : ℕ → ℕ → List ℕ → Bool
some_between a b [] = false
some_between a b (c ∷ cs) = between a b c || some_between a b cs

-- `trim_start_matches("0x")`
unfoldable pub without_0x : String → String
without_0x String.[] = ""
without_0x (String.◌∷◌ c String.[]) = String.◌∷◌ c ""
without_0x (String.◌∷◌ c (String.◌∷◌ d s)) =
    let rest = without_0x s in
    if code c == 48 && code d == 120 then rest else String.◌∷◌ c (String.◌∷◌ d s)
