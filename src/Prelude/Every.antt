-- ===== src/Prelude/Every.antt =====
-- A predicate on every element of a list, under the list operations of the queue.
use Prim.Native.Nat.{ℕ, zero, suc}
use mathlib.Core.Path.{◌≡◌}
use mathlib.Core.Logic.{inl, inr}
use mathlib.Core.Bool.{Bool, true, false}
use mathlib.Core.List.{List, [], ◌∷◌}
use native.Mathlib.Omega.{arith}
use gum_server.Prelude.Tests.{leb, Bool-cases}
use gum_server.Prelude.Lists.{All, select, insert_by, sort_by, take, any}

module _ {ℓ κ} {A : Type ℓ} (P : A → Type κ) where
  pub All-select : (p : A → Bool) (xs : List A) → All P xs → All P (select p xs)
  All-select p [] h = tt
  All-select p (x ∷ xs) (a, h) = elim (Bool-cases (p x)) [
    | inl e ↦ rw e (a, All-select p xs h)
    | inr e ↦ rw e (All-select p xs h)
  ]

  All-insert_by : (key : A → ℕ) (x : A) (xs : List A) → P x → All P xs → All P (insert_by key x xs)
  All-insert_by key x [] a h = (a, tt)
  All-insert_by key x (y ∷ ys) a (b, h) = elim (Bool-cases (leb (key x) (key y))) [
    | inl e ↦ rw e (a, (b, h))
    | inr e ↦ rw e (b, All-insert_by key x ys a h)
  ]

  pub All-sort_by : (key : A → ℕ) (xs : List A) → All P xs → All P (sort_by key xs)
  All-sort_by key [] h = tt
  All-sort_by key (x ∷ xs) (a, h) = All-insert_by key x (sort_by key xs) a (All-sort_by key xs h)

  pub All-take : (n : ℕ) (xs : List A) → All P xs → All P (take n xs)
  All-take zero xs h = tt
  All-take (suc n) [] h = tt
  All-take (suc n) (x ∷ xs) (a, h) = (a, All-take n xs h)

  All-const : ((a : A) → P a) → (xs : List A) → All P xs
  All-const f [] = tt
  All-const f (x ∷ xs) = (f x, All-const f xs)

  module _ {ν} (Q : A → Type ν) where
    pub All-map : ((a : A) → P a → Q a) → (xs : List A) → All P xs → All Q xs
    All-map f [] h = tt
    All-map f (x ∷ xs) (a, h) = (f x a, All-map f xs h)

    pub All-zip : (xs : List A) → All P xs → All Q xs → All (λ a. P a × Q a) xs
    All-zip [] h k = tt
    All-zip (x ∷ xs) (a, h) (b, k) = ((a, b), All-zip xs h k)

module _ {ℓ} {A : Type ℓ} where
  -- A relation between the elements of two lists, read the other way.
  pub All-swap {κ} :
      (R : A → A → Type κ) (xs ys : List A)
      → All (λ x. All (R x) ys) xs
      → All (λ y. All (λ x. R x y) xs) ys
  All-swap R [] ys h = All-const (λ y. Unit {κ}) (λ y. tt) ys
  All-swap R (x ∷ xs) ys (a, h) = All-zip (R x) _ ys a (All-swap R xs ys h)

  pub All-selected : (p : A → Bool) (xs : List A) → All (λ x. p x ≡ true) (select p xs)
  All-selected p [] = tt
  All-selected p (x ∷ xs) = elim (Bool-cases (p x)) [
    | inl e ↦ rw e (e, All-selected p xs)
    | inr e ↦ rw e (All-selected p xs)
  ]

  pub any-All : (p : A → Bool) (xs : List A) → any p xs ≡ false → All (λ x. p x ≡ false) xs
  any-All p [] h = tt
  any-All p (x ∷ xs) h = (ground arith, any-All p xs (ground arith))
