-- ===== src/Prelude/Text.antt =====
-- Text as the source formats it: decimal and hexadecimal numbers, bytes, prefixes.
use Prim.Native.Char.{code}
use Prim.Native.String.{String, ◌++◌}
use text.Mathlib.TextLemmas.{cons-append, nil-append}
use mathlib.Core.Path.{◌≡◌, refl}
use mathlib.Core.List.{List, [], ◌∷◌}
use mathlib.Core.Option.{Option, none, some}
use Prim.Native.Nat.{ℕ, zero, suc, ◌/◌, ◌%◌}
use gum_server.Prelude.Tests.{ltb, ◌==◌, ==_refl, if◌then◌else◌}

digit : ℕ → String
digit zero = "0"
digit (suc zero) = "1"
digit (suc (suc zero)) = "2"
digit (suc (suc (suc zero))) = "3"
digit (suc (suc (suc (suc zero)))) = "4"
digit (suc (suc (suc (suc (suc zero))))) = "5"
digit (suc (suc (suc (suc (suc (suc zero)))))) = "6"
digit (suc (suc (suc (suc (suc (suc (suc zero))))))) = "7"
digit (suc (suc (suc (suc (suc (suc (suc (suc zero)))))))) = "8"
digit (suc (suc (suc (suc (suc (suc (suc (suc (suc zero))))))))) = "9"
digit (suc (suc (suc (suc (suc (suc (suc (suc (suc (suc n)))))))))) =
    if n == 0
    then "a"
    else if n == 1
    then "b"
    else if n == 2
    then "c"
    else if n == 3
    then "d"
    else if n == 4
    then "e"
    else "f"

-- The digits of `n` in a base, before `acc`. As many rounds as the number has digits are enough,
-- and a number has no more digits than its successor counts.
digits : ℕ → ℕ → ℕ → String → String
unfolding digit
digits zero base n acc = acc
digits (suc fuel) base n acc =
    let rest = digits fuel base (n / base) (digit (n % base) ++ acc) in
    if ltb n base then digit n ++ acc else rest

-- `{n}`
unfoldable pub decimal : ℕ → String
unfolding digits
decimal n = digits (suc n) 10 n ""

-- `{n:#x}` of a number
unfoldable pub hex : ℕ → String
unfolding digits
hex n = "0x" ++ digits (suc n) 16 n ""

padded : ℕ → ℕ → String → String
unfolding digit
padded zero n acc = acc
padded (suc k) n acc = padded k (n / 16) (digit (n % 16) ++ acc)

-- `{a:#x}` of an address: forty digits
unfoldable pub hex_address : ℕ → String
unfolding padded
hex_address a = "0x" ++ padded 40 a ""

-- `hex::encode`
unfoldable pub hex_bytes : List ℕ → String
unfolding padded
hex_bytes [] = ""
hex_bytes (b ∷ bs) = padded 2 b "" ++ hex_bytes bs

-- `s.split('(').next()`
unfoldable pub before_paren : String → String
before_paren String.[] = ""
before_paren (String.◌∷◌ c s) =
    let rest = before_paren s in if code c == 40 then "" else String.◌∷◌ c rest

-- `str::strip_prefix`
unfoldable pub strip_prefix : String → String → Option String
strip_prefix String.[] s = some s
strip_prefix (String.◌∷◌ c p) String.[] = none
strip_prefix (String.◌∷◌ c p) (String.◌∷◌ d s) = if code c == code d then strip_prefix p s else none

pub strip_prefix-append : (p s : String) → strip_prefix p (p ++ s) ≡ some s
unfolding strip_prefix
strip_prefix-append String.[] s = rw nil-append refl
strip_prefix-append (String.◌∷◌ c p) s =
    rw (cons-append c p s, ==_refl (code c)) (strip_prefix-append p s)
