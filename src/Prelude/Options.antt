-- ===== src/Prelude/Options.antt =====
-- Options as the source uses them: `is_some`, `or` (SQL's COALESCE), `unwrap_or_default`.
use Prim.Native.Nat.{ℕ}
use mathlib.Core.Bool.{Bool, true, false}
use mathlib.Core.Option.{Option, none, some}
use gum_server.Prelude.Tests.{◌==◌}

module _ {ℓ} {A : Type ℓ} where
  abbrev pub is_some : Option A → Bool
  is_some none = false
  is_some (some a) = true

  -- COALESCE(a, b)
  abbrev pub coalesce : Option A → Option A → Option A
  coalesce none b = b
  coalesce (some a) b = some a

  abbrev pub unwrap_or : Option A → A → A
  unwrap_or none d = d
  unwrap_or (some a) d = a

-- `column = $1`: a NULL equals nothing.
abbrev pub is_value : ℕ → Option ℕ → Bool
is_value a none = false
is_value a (some b) = b == a
