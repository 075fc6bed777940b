-- ===== src/Pay/Projected.antt =====
-- src/deposit/pay.rs, `payer_data`: what of an event's data a payer sees.
use text.Mathlib.TextEquality.{eq_iff}
use mathlib.Core.Path.{subst}
use gum_server.Prelude.{
  String, ◌≡◌, refl, sym, ap, ◌∙◌, Bool, true, false, ◌&&◌, ◌||◌, Option, none, some, List, [], ◌∷◌,
  str_eq, if◌then◌else◌, any, inl, inr, Bool-cases, is_some,
}
use gum_server.Prelude.Json.{
  Value, null, boolean, number, other_number, string, array, object, Fields, end, field, get_field,
  insert_field, get_value,
}
use gum_server.Deposit.Events.{EventType}
use gum_server.Pay.{
  pick, put, put_transfer, non_null, payer_data, is_failure, data_fields, transfer_fields,
}

str_eq-path : (s t : String) → str_eq s t ≡ true → s ≡ t
str_eq-path s t h = (eq_iff s t).0 h

distinct : (i j k : String) → str_eq i j ≡ false → str_eq i k ≡ true → str_eq j k ≡ false
distinct i j k h e = elim (Bool-cases (str_eq j k)) [
  | inl l ↦
      let same : str_eq i j ≡ true = (eq_iff i j).1 (str_eq-path i k e ∙ sym (str_eq-path j k l)) in
      cc
  | inr l ↦ l
]

get_field-insert_field :
    (k j : String) (v : Value) (fs : Fields)
    → get_field k (insert_field j v fs) ≡ (if str_eq j k then some v else get_field k fs)
unfolding get_field insert_field
get_field-insert_field k j v end = refl
get_field-insert_field k j v (field i w fs) = elim (Bool-cases (str_eq i j)) [
  | inl e ↦ elim (Bool-cases (str_eq j k)) [
    | inl l ↦ rw e (rw l refl)
    | inr l ↦ rw e (rw l (rw (ap (λ s. str_eq s k) (str_eq-path i j e) ∙ l) refl))
  ]
  | inr e ↦ elim (Bool-cases (str_eq i k)) [
    | inl l ↦ rw e (rw l (rw (distinct i j k e l) refl))
    | inr l ↦ rw e (rw l (get_field-insert_field k j v fs))
  ]
]

abbrev pub listed : String → List String → Bool
listed k = any (λ j. str_eq j k)

abbrev or_else : Option Value → Option Value → Option Value
or_else none b = b
or_else (some a) b = some a

get_field-put :
    (k j : String) (o : Option Value) (fs : Fields)
    → get_field k (put j o fs) ≡ (if str_eq j k then or_else o (get_field k fs) else get_field k fs)
get_field-put k j none fs = elim (Bool-cases (str_eq j k)) [ inl l ↦ rw l refl | inr l ↦ rw l refl ]
get_field-put k j (some v) fs = get_field-insert_field k j v fs

put-hit :
    (k j : String) (from into : Fields)
    → str_eq j k ≡ true
    → get_field k (put j (non_null (get_field j from)) into)
      ≡ or_else (non_null (get_field k from)) (get_field k into)
put-hit k j from into e =
    get_field-put k j (non_null (get_field j from)) into
    ∙ rw e (ap (λ s. or_else (non_null (get_field s from)) (get_field k into)) (str_eq-path j k e))

put-miss :
    (k j : String) (o : Option Value) (into : Fields)
    → str_eq j k ≡ false
    → get_field k (put j o into) ≡ get_field k into
put-miss k j o into e = get_field-put k j o into ∙ rw e refl

or_else-again :
    (c : Bool) (o b : Option Value)
    → (if c then or_else o (or_else o b) else or_else o b) ≡ or_else o b
or_else-again true none b = refl
or_else-again true (some a) b = refl
or_else-again false o b = refl

get_field-pick :
    (k : String) (from : Fields) (ks : List String) (into : Fields)
    → get_field k (pick from ks into) ≡ (
        if listed k ks
        then or_else (non_null (get_field k from)) (get_field k into)
        else get_field k into)
unfolding pick
get_field-pick k from [] into = refl
get_field-pick k from (j ∷ ks) into =
    let value = non_null (get_field k from) in
    let ih = get_field-pick k from ks (put j (non_null (get_field j from)) into) in
    elim (Bool-cases (str_eq j k)) [
      | inl e ↦ rw e (
          ih
          ∙ ap (λ o. if listed k ks then or_else value o else o) (put-hit k j from into e)
          ∙ or_else-again (listed k ks) value (get_field k into))
      | inr e ↦ rw e (
          ih
          ∙ ap (λ o. if listed k ks then or_else value o else o)
              (put-miss k j (non_null (get_field j from)) into e))
    ]

put_transfer-miss :
    (k : String) (o : Option Value)
    → str_eq "transfer" k ≡ false
    → get_field k (put_transfer o end) ≡ none
unfolding get_field insert_field
put_transfer-miss k none h = refl
put_transfer-miss k (some null) h = refl
put_transfer-miss k (some (boolean b)) h = refl
put_transfer-miss k (some (number n)) h = refl
put_transfer-miss k (some (other_number s)) h = refl
put_transfer-miss k (some (string s)) h = refl
put_transfer-miss k (some (array xs)) h = refl
put_transfer-miss k (some (object fs)) h = rw h refl

-- The members that are copied, by the event's type.
abbrev pub is_copied : EventType → String → Bool
is_copied t k = listed k data_fields || (is_failure t && str_eq "code" k)

abbrev pub is_object : Option Value → Bool
is_object (some (object fs)) = true
is_object other = false

-- A member of a member.
abbrev pub within : Option Value → String → Option Value
within none k = none
within (some v) k = get_value k v

or_else-none : (o : Option Value) → or_else o none ≡ o
or_else-none none = refl
or_else-none (some a) = refl

if-none :
    (a : Bool) (o : Option Value) → (if a then or_else o none else none) ≡ (if a then o else none)
if-none true o = or_else-none o
if-none false o = refl

either-picked :
    (a c : Bool) (o : Option Value)
    → (if c || false then or_else o (if a then o else none) else (if a then o else none))
      ≡ (if a || c then o else none)
either-picked true true none = refl
either-picked true true (some v) = refl
either-picked true false o = refl
either-picked false true o = or_else-none o
either-picked false false o = refl

or_false : (b : Bool) → b ≡ (b || false)
or_false true = refl
or_false false = refl

if-const : (c : Bool) (o : Option Value) → o ≡ (if c then o else o)
if-const true o = refl
if-const false o = refl

transfer-picked :
    (o : Option Value) (j : String)
    → within (get_field "transfer" (put_transfer o end)) j
      ≡ (if listed j transfer_fields then non_null (within o j) else none)
unfolding get_field insert_field get_value
transfer-picked none j = if-const (listed j transfer_fields) none
transfer-picked (some null) j = if-const (listed j transfer_fields) none
transfer-picked (some (boolean b)) j = if-const (listed j transfer_fields) none
transfer-picked (some (number n)) j = if-const (listed j transfer_fields) none
transfer-picked (some (other_number s)) j = if-const (listed j transfer_fields) none
transfer-picked (some (string s)) j = if-const (listed j transfer_fields) none
transfer-picked (some (array xs)) j = if-const (listed j transfer_fields) none
transfer-picked (some (object tr)) j =
    get_field-pick j tr transfer_fields end
    ∙ if-none (listed j transfer_fields) (non_null (get_field j tr))

-- What is put is an object, and only for an object.
PutOnly : Option Value → Option Value → Type 0
PutOnly o shown = (is_some shown ≡ is_object o) × (is_object shown ≡ is_object o)

put_transfer-PutOnly : (o : Option Value) → PutOnly o (get_field "transfer" (put_transfer o end))
unfolding get_field insert_field PutOnly
put_transfer-PutOnly none = (refl, refl)
put_transfer-PutOnly (some null) = (refl, refl)
put_transfer-PutOnly (some (boolean b)) = (refl, refl)
put_transfer-PutOnly (some (number n)) = (refl, refl)
put_transfer-PutOnly (some (other_number s)) = (refl, refl)
put_transfer-PutOnly (some (string s)) = (refl, refl)
put_transfer-PutOnly (some (array xs)) = (refl, refl)
put_transfer-PutOnly (some (object tr)) = (refl, refl)

module _ (fs : Fields) where
  kept_transfer : Fields
  unfolding get_field
  kept_transfer = put_transfer (get_field "transfer" fs) end

  kept : Fields
  unfolding pick kept_transfer
  kept = pick fs data_fields kept_transfer

  get_field-kept :
      (k : String)
      → str_eq "transfer" k ≡ false
      → get_field k kept ≡ (if listed k data_fields then non_null (get_field k fs) else none)
  unfolding kept kept_transfer
  get_field-kept k h =
      let value = non_null (get_field k fs) in
      get_field-pick k fs data_fields kept_transfer
      ∙ ap (λ o. if listed k data_fields then or_else value o else o)
          (put_transfer-miss k (get_field "transfer" fs) h)
      ∙ if-none (listed k data_fields) value

  get_field-coded :
      (k : String)
      → str_eq "transfer" k ≡ false
      → get_field k (pick fs ("code" ∷ []) kept)
        ≡ (if listed k data_fields || str_eq "code" k then non_null (get_field k fs) else none)
  get_field-coded k h =
      let value = non_null (get_field k fs) in
      get_field-pick k fs ("code" ∷ []) kept
      ∙ ap (λ o. if listed k ("code" ∷ []) then or_else value o else o) (get_field-kept k h)
      ∙ either-picked (listed k data_fields) (str_eq "code" k) value

  transfer-kept : get_field "transfer" kept ≡ get_field "transfer" kept_transfer
  unfolding kept
  transfer-kept = get_field-pick "transfer" fs data_fields kept_transfer

  transfer-shown :
      (out : Fields) (j : String)
      → get_field "transfer" out ≡ get_field "transfer" kept_transfer
      → within (get_field "transfer" out) j
        ≡ (if listed j transfer_fields then non_null (within (get_field "transfer" fs) j) else none)
  unfolding kept_transfer
  transfer-shown out j h = ap (λ o. within o j) h ∙ transfer-picked (get_field "transfer" fs) j

  transfer-PutOnly :
      (out : Fields)
      → get_field "transfer" out ≡ get_field "transfer" kept_transfer
      → PutOnly (get_field "transfer" fs) (get_field "transfer" out)
  unfolding kept_transfer
  transfer-PutOnly out h =
      subst (PutOnly (get_field "transfer" fs)) (sym h)
        (put_transfer-PutOnly (get_field "transfer" fs))

-- The members other than the transfer, by the key `k`; the transfer, which is shown exactly if it is an
-- object, as an object; and the transfer's members, by the key `j`.
abbrev pub IsShown : EventType → Value → Value → String → String → Type 0
IsShown t shown from k j =
    (is_object (some shown) ≡ true)
    × (get_value k shown ≡ (if is_copied t k then non_null (get_value k from) else none))
    × (is_some (get_value "transfer" shown) ≡ is_object (get_value "transfer" from))
    × (is_object (get_value "transfer" shown) ≡ is_object (get_value "transfer" from))
    × (within (get_value "transfer" shown) j ≡ (
        if listed j transfer_fields then non_null (within (get_value "transfer" from) j) else none))

object-IsShown :
    (t : EventType) (fs : Fields) (k j : String)
    → str_eq "transfer" k ≡ false
    → IsShown t (payer_data t (object fs)) (object fs) k j
unfolding get_value payer_data kept kept_transfer PutOnly
object-IsShown t fs k j h = elim (Bool-cases (is_failure t)) [
  | inl e ↦
      let same = get_field-pick "transfer" fs ("code" ∷ []) (kept fs) ∙ transfer-kept fs in
      let out = pick fs ("code" ∷ []) (kept fs) in
      let (some_is, object_is) = transfer-PutOnly fs out same in
      (
        refl,
        rw e (get_field-coded fs k h),
        rw e some_is,
        rw e object_is,
        rw e (transfer-shown fs out j same),
      )
  | inr e ↦
      let (some_is, object_is) = transfer-PutOnly fs (kept fs) (transfer-kept fs) in
      (
        refl,
        rw e (
            get_field-kept fs k h
            ∙ ap (λ b. if b then non_null (get_field k fs) else none)
                (or_false (listed k data_fields))),
        rw e some_is,
        rw e object_is,
        rw e (transfer-shown fs (kept fs) j (transfer-kept fs)),
      )
]

other-IsShown : (t : EventType) (k j : String) → IsShown t (object end) null k j
unfolding get_value get_field
other-IsShown t k j =
    (refl, if-const (is_copied t k) none, refl, refl, if-const (listed j transfer_fields) none)

-- A payer sees of an event's data an object: of its members only the confirmed total, the transaction's
-- hash and its block, and of a failure the code, each as it is where it is there and not null; and the
-- transfer exactly if it is an object, as an object whose members are those of the list that are not null.
pub payer_data-IsShown :
    (t : EventType) (from : Value) (k j : String)
    → str_eq "transfer" k ≡ false
    → IsShown t (payer_data t from) from k j
unfolding payer_data get_value
payer_data-IsShown t null k j h = other-IsShown t k j
payer_data-IsShown t (boolean b) k j h = other-IsShown t k j
payer_data-IsShown t (number n) k j h = other-IsShown t k j
payer_data-IsShown t (other_number s) k j h = other-IsShown t k j
payer_data-IsShown t (string s) k j h = other-IsShown t k j
payer_data-IsShown t (array xs) k j h = other-IsShown t k j
payer_data-IsShown t (object fs) k j h = object-IsShown t fs k j h
