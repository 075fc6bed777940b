-- ===== src/Prelude/Refusals.antt =====
-- `Result<_, String>` and `Result<_, ApiError>`: a value, or why it is refused. Of a message that spells
-- values the words around them are kept. Arithmetic on uint256 and usize.
use gum_server.Prelude.{
  ◌⊎◌, inl, inr, ℕ, ◌+◌, ◌^◌, String, ◌≡◌, refl, Bool, true, false, Option, none, some, List, [],
  ◌∷◌, ltb, if◌then◌else◌, arith,
}

pub data Checked {ℓ} (A : Type ℓ) : Type ℓ where
  ok : A → Checked A
  refuse : String → Checked A

infixl 5 ◌>>=◌ ◌>>◌
abbrev pub ◌>>=◌ {ℓ κ} : {A : Type ℓ} {B : Type κ} → Checked A → (A → Checked B) → Checked B
ok a >>= f = f a
refuse e >>= f = refuse e

abbrev pub ◌>>◌ {ℓ} : {B : Type ℓ} → Checked (Unit {0}) → Checked B → Checked B
m >> k = m >>= λ _. k

abbrev pub ensure : Bool → String → Checked (Unit {0})
ensure true e = ok tt
ensure false e = refuse e

abbrev pub or_refuse {ℓ} : {A : Type ℓ} → Option A → String → Checked A
or_refuse none e = refuse e
or_refuse (some a) e = ok a

-- `U256::checked_add`
abbrev pub checked_add : ℕ → ℕ → Option ℕ
checked_add a b = if ltb (a + b) (2 ^ 256) then some (a + b) else none

-- `usize::checked_add`, on 64 bits
abbrev pub checked_usize : ℕ → ℕ → Option ℕ
checked_usize a b = if ltb (a + b) (2 ^ 64) then some (a + b) else none

abbrev pub sum : List ℕ → ℕ
sum [] = 0
sum (x ∷ xs) = x + sum xs

-- Inversion of what was not refused.
pub >>=-ok {ℓ κ} :
    {A : Type ℓ} {B : Type κ} (m : Checked A) (f : A → Checked B) {b : B}
    → (m >>= f) ≡ ok b
    → (a : A) × (m ≡ ok a) × (f a ≡ ok b)
>>=-ok (ok a) f h = (a, refl, h)
>>=-ok (refuse e) f h = cc

pub ensure-ok {ℓ} :
    {B : Type ℓ} (c : Bool) (e : String) (k : Checked B) {b : B}
    → (ensure c e >> k) ≡ ok b
    → (c ≡ true) × (k ≡ ok b)
ensure-ok true e k h = (refl, h)
ensure-ok false e k h = cc

pub or_refuse-ok {ℓ} :
    {A : Type ℓ} (o : Option A) (e : String) {a : A} → or_refuse o e ≡ ok a → o ≡ some a
or_refuse-ok none e h = cc
or_refuse-ok (some a) e h = cc

pub checked_add-ok : (a b : ℕ) {c : ℕ} → checked_add a b ≡ some c → c ≡ a + b
checked_add-ok a b h = ground arith

pub or_refuse->>=-ok {ℓ κ} :
    {A : Type ℓ} {B : Type κ} (o : Option A) (e : String) (f : A → Checked B) {b : B}
    → (or_refuse o e >>= f) ≡ ok b
    → (a : A) × (o ≡ some a) × (f a ≡ ok b)
or_refuse->>=-ok none e f h = cc
or_refuse->>=-ok (some a) e f h = (a, refl, h)

pub if-ok {ℓ} :
    {A : Type ℓ} (c : Bool) (x y : Checked A) {a : A}
    → (if c then x else y) ≡ ok a
    → ((c ≡ true) × (x ≡ ok a)) ⊎ ((c ≡ false) × (y ≡ ok a))
if-ok true x y h = inl (refl, h)
if-ok false x y h = inr (refl, h)

pub refuse-ok {ℓ} : {A : Type ℓ} {e : String} {a : A} {P : Type 0} → refuse e ≡ ok a → P
refuse-ok h = cc h

pub ok-inj {ℓ} : {A : Type ℓ} {a b : A} → ok a ≡ ok b → a ≡ b
ok-inj h = cc h

pub ensure-last : (c : Bool) (e : String) {u : Unit {0}} → ensure c e ≡ ok u → c ≡ true
ensure-last true e h = refl
ensure-last false e h = cc h
