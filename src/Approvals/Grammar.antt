-- ===== src/Approvals/Grammar.antt =====
-- `parse_condition` and the models of conditions in apps/api/src/flo/modules/approvals/schemas.py.
pub mod RoundTrip
use xlr8_flo.Common.{
  ℕ, zero, suc, ◌+◌, String, Bool, true, false, not, ◌&&◌, ◌||◌, Option, none, some, List, [], ◌∷◌,
  ltb, leb, ◌==◌, if◌then◌else◌, length, any, all,
}
use xlr8_flo.Common.Int.{ℤ}
use xlr8_flo.Common.Equality.{◌===◌, String_eq}
use xlr8_flo.Common.Problems.{
  validation_failed, Problem, Result, ok, err, is_ok, ◌>>=◌, ◌>>◌, raise_if,
}
use xlr8_flo.Money.{currency_exponent}
use xlr8_flo.Approvals.Values.{
  MoneyValue, LeafValue, string, flag, priced, strings, absent, parse_amount, from_iso,
}
use xlr8_flo.Approvals.Conditions.{
  Operator, eq, ne, lt, le, gt, ge, in_list, not_in, contains, is_null, not_null, LeafCondition,
  Condition, leaf, all_of, any_of, not_of, Conditions, end, more, mem,
}

-- A JSON value; the keys of an object are distinct.
mutual
  pub data Json : Type 0 where
    null : Json
    boolean : Bool → Json
    number : ℤ → Json
    text : String → Json
    array : Items → Json
    object : Fields → Json

  pub data Items : Type 0 where
    done : Items
    item : Json → Items → Items

  pub data Fields : Type 0 where
    closed : Fields
    entry : String → Json → Fields → Fields

abbrev pub field_of : String → Fields → Option Json
field_of key closed = none
field_of key (entry k v rest) = if k === key then some v else field_of key rest

abbrev pub keys : Fields → List String
keys closed = []
keys (entry k v rest) = k ∷ keys rest

abbrev pub invalid : Problem
invalid = validation_failed "condition"

abbrev pub is_given : Option Json → Bool
is_given none = false
is_given (some v) = true

-- The recursive calls of `limits` on the children, in order.
unfoldable pub each : (Json → ℕ → Result ℕ) → Items → ℕ → Result ℕ
each check done leaves = ok leaves
each check (item v vs) leaves = do leaves₁ ← check v leaves; each check vs leaves₁

abbrev pub each_of : (Json → ℕ → Result ℕ) → Option Json → ℕ → Result ℕ
each_of check (some (array vs)) leaves = each check vs leaves
each_of check _ leaves = ok leaves

abbrev pub one_of : (Json → ℕ → Result ℕ) → Option Json → ℕ → Result ℕ
one_of check none leaves = ok leaves
one_of check (some v) leaves = check v leaves

abbrev pub count_leaf : Bool → ℕ → Result ℕ
count_leaf false leaves = ok leaves
count_leaf true leaves = do raise_if (ltb 50 (leaves + 1)) invalid; ok (leaves + 1)

abbrev pub limits_of : (Json → ℕ → Result ℕ) → Json → ℕ → Result ℕ
limits_of check (object fields) leaves = do
  leaves₁ ← count_leaf (is_given (field_of "field" fields)) leaves
  leaves₂ ← each_of check (field_of "all" fields) leaves₁
  leaves₃ ← each_of check (field_of "any" fields) leaves₂
  one_of check (field_of "not" fields) leaves₃
limits_of check _ leaves = ok leaves

-- `limits`, with the depths that are left and the leaves counted so far.
unfoldable pub limits : ℕ → Json → ℕ → Result ℕ
limits zero node leaves = err invalid
limits (suc left) node leaves = limits_of (limits left) node leaves

abbrev pub operator_of : String → Option Operator
operator_of s =
    if s === "eq"
    then some eq
    else if s === "ne"
    then some ne
    else if s === "lt"
    then some lt
    else if s === "le"
    then some le
    else if s === "gt"
    then some gt
    else if s === "ge"
    then some ge
    else if s === "in"
    then some in_list
    else if s === "not_in"
    then some not_in
    else if s === "contains"
    then some contains
    else if s === "is_null"
    then some is_null
    else if s === "not_null"
    then some not_null
    else none

abbrev pub is_some {ℓ} : {A : Type ℓ} → Option A → Bool
is_some none = false
is_some (some a) = true

-- MoneyValue.amount's pattern and MoneyValue.valid_currency
abbrev pub money_ok : LeafValue → Bool
money_ok (priced v) = is_some (parse_amount v.amount) && is_ok (currency_exponent v.currency)
money_ok _ = true

abbrev pub is_null_test : Operator → Bool
is_null_test is_null = true
is_null_test not_null = true
is_null_test _ = false

abbrev pub is_membership : Operator → Bool
is_membership in_list = true
is_membership not_in = true
is_membership _ = false

abbrev pub is_order : Operator → Bool
is_order lt = true
is_order le = true
is_order gt = true
is_order ge = true
is_order _ = false

abbrev pub is_contains : Operator → Bool
is_contains contains = true
is_contains _ = false

abbrev pub value_ok : Operator → LeafValue → Bool
value_ok op absent = false
value_ok op (strings ss) = is_membership op && leb 1 (length ss) && leb (length ss) 100
value_ok op (string s) =
    not (is_membership op)
    && (not (is_order op) || is_some (parse_amount s) || is_some (from_iso s))
value_ok op _ = not (is_membership op) && not (is_contains op)

-- LeafCondition.value_shape; `given` tells that the key stands in the object.
abbrev pub shape_ok : Bool → Operator → LeafValue → Bool
shape_ok given op v = if is_null_test op then not given else value_ok op v

-- Items that are all strings.
unfoldable pub strings_of : Items → Option (List String)
strings_of done = some []
strings_of (item (text s) rest) = elim (strings_of rest) [ none ↦ none | some ss ↦ some (s ∷ ss) ]
strings_of (item _ rest) = none

abbrev pub list_value : Option (List String) → Option LeafValue
list_value none = none
list_value (some ss) = some (strings ss)

abbrev pub money_value : List String → Option Json → Option Json → Option LeafValue
money_value ks (some (text a)) (some (text c)) =
    if length ks == 2 then some (priced (record { amount = a; currency = c })) else none
money_value ks _ _ = none

-- The union of the types of LeafCondition.value.
abbrev pub value_of : Option Json → Option LeafValue
value_of none = some absent
value_of (some null) = some absent
value_of (some (boolean b)) = some (flag b)
value_of (some (number n)) = none
value_of (some (text s)) = some (string s)
value_of (some (array vs)) = list_value (strings_of vs)
value_of (some (object fs)) = money_value (keys fs) (field_of "amount" fs) (field_of "currency" fs)

abbrev pub leaf_parts : Bool → String → Option Operator → Option LeafValue → Result Condition
leaf_parts given field (some op) (some v) = do
  raise_if (field === "") invalid
  raise_if (not (money_ok v && shape_ok given op v)) invalid
  ok (leaf (record { field = field; op = op; value = v }))
leaf_parts given field _ _ = err invalid

abbrev pub leaf_of : Fields → Option Json → Option Json → Result Condition
leaf_of fields (some (text field)) (some (text op)) = do
  raise_if (not (all (λ k. mem k ("field" ∷ "op" ∷ "value" ∷ [])) (keys fields))) invalid
  leaf_parts (is_given (field_of "value" fields)) field (operator_of op)
      (value_of (field_of "value" fields))
leaf_of fields _ _ = err invalid

abbrev pub items_length : Items → ℕ
items_length done = 0
items_length (item v vs) = items_length vs + 1

unfoldable pub read_items : (Json → Result Condition) → Items → Result Conditions
read_items read done = ok end
read_items read (item v vs) = do c ← read v; cs ← read_items read vs; ok (more c cs)

-- `list["Condition"]` with 1 to 20 elements
abbrev pub children : (Json → Result Condition) → (Conditions → Condition) → Json → Result Condition
children read wrap (array vs) = do
  raise_if (not (leb 1 (items_length vs) && leb (items_length vs) 20)) invalid
  cs ← read_items read vs
  ok (wrap cs)
children read wrap _ = err invalid

abbrev pub child : (Json → Result Condition) → Json → Result Condition
child read v = do c ← read v; ok (not_of c)

-- The union of the four models: each forbids the keys of the others.
abbrev pub read_object : (Json → Result Condition) → Fields → Result Condition
read_object read (entry k v closed) =
    if k === "all"
    then children read all_of v
    else if k === "any"
    then children read any_of v
    else if k === "not"
    then child read v
    else err invalid
read_object read fields = leaf_of fields (field_of "field" fields) (field_of "op" fields)

abbrev pub read_json : (Json → Result Condition) → Json → Result Condition
read_json read (object fields) = read_object read fields
read_json read _ = err invalid

-- The adapter's validation; `limits` has bounded the depth.
unfoldable pub validate : ℕ → Json → Result Condition
validate zero node = err invalid
validate (suc left) node = read_json (validate left) node

unfoldable pub parse_condition : Json → Result Condition
parse_condition value = do leaves ← limits 6 value 0; validate 6 value
