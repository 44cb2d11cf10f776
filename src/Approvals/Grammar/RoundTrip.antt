-- ===== src/Approvals/Grammar/RoundTrip.antt =====
-- The JSON form of a condition and its reading (apps/api/src/flo/modules/approvals/schemas.py).
use xlr8_flo.Common.{
  ℕ, zero, suc, ◌+◌, ◌≤◌, ◌≡◌, refl, ap, ◌∙◌, String, Bool, true, false, not, ◌&&◌, some, List, [],
  ◌∷◌, arith, ltb, leb, any, all, and_elim,
}
use xlr8_flo.Common.Equality.{◌===◌, String_eq}
use xlr8_flo.Common.Problems.{ok, raise_if}
use xlr8_flo.Approvals.Values.{LeafValue, string, flag, priced, strings, absent}
use xlr8_flo.Approvals.Conditions.{
  Operator, eq, ne, lt, le, gt, ge, in_list, not_in, contains, is_null, not_null, LeafCondition,
  Condition, leaf, all_of, any_of, not_of, Conditions, end, more,
}
use xlr8_flo.Approvals.Grammar.{
  Json, boolean, text, array, object, Items, done, item, Fields, closed, entry, each, count_leaf,
  leaf_parts, limits, operator_of, money_ok, shape_ok, strings_of, items_length, read_items,
  validate, parse_condition,
}

abbrev pub operator_name : Operator → String
operator_name eq = "eq"
operator_name ne = "ne"
operator_name lt = "lt"
operator_name le = "le"
operator_name gt = "gt"
operator_name ge = "ge"
operator_name in_list = "in"
operator_name not_in = "not_in"
operator_name contains = "contains"
operator_name is_null = "is_null"
operator_name not_null = "not_null"

abbrev pub string_items : List String → Items
string_items [] = done
string_items (s ∷ ss) = item (text s) (string_items ss)

abbrev pub value_fields : LeafValue → Fields
value_fields (string s) = entry "value" (text s) closed
value_fields (flag b) = entry "value" (boolean b) closed
value_fields (priced m) =
    entry "value"
      (object (entry "amount" (text m.amount) (entry "currency" (text m.currency) closed))) closed
value_fields (strings ss) = entry "value" (array (string_items ss)) closed
value_fields absent = closed

-- The form of a condition on the wire.
abbrev mutual
  pub to_json : Condition → Json
  to_json (leaf l) =
      object (
        entry "field" (text l.field)
          (entry "op" (text (operator_name l.op)) (value_fields l.value)))
  to_json (all_of cs) = object (entry "all" (array (to_items cs)) closed)
  to_json (any_of cs) = object (entry "any" (array (to_items cs)) closed)
  to_json (not_of c) = object (entry "not" (to_json c) closed)

  pub to_items : Conditions → Items
  to_items end = done
  to_items (more c cs) = item (to_json c) (to_items cs)

abbrev pub is_absent : LeafValue → Bool
is_absent absent = true
is_absent _ = false

-- A leaf that `value_shape` and the types of its fields accept.
abbrev pub leaf_ok : LeafCondition → Bool
leaf_ok l =
    not (l.field === "") && (money_ok l.value && shape_ok (not (is_absent l.value)) l.op l.value)

abbrev mutual
  pub leaf_count : Condition → ℕ
  leaf_count (leaf l) = 1
  leaf_count (all_of cs) = leaf_counts cs
  leaf_count (any_of cs) = leaf_counts cs
  leaf_count (not_of c) = leaf_count c

  pub leaf_counts : Conditions → ℕ
  leaf_counts end = 0
  leaf_counts (more c cs) = leaf_count c + leaf_counts cs

abbrev pub conditions_length : Conditions → ℕ
conditions_length end = 0
conditions_length (more c cs) = conditions_length cs + 1

abbrev pub one_to_twenty : Conditions → Bool
one_to_twenty cs = leb 1 (conditions_length cs) && leb (conditions_length cs) 20

-- At most so many levels deep, with one to twenty children in a list, and leaves of a valid shape.
abbrev mutual
  pub fits : ℕ → Condition → Bool
  fits zero c = false
  fits (suc d) (leaf l) = leaf_ok l
  fits (suc d) (all_of cs) = one_to_twenty cs && all_fit d cs
  fits (suc d) (any_of cs) = one_to_twenty cs && all_fit d cs
  fits (suc d) (not_of c) = fits d c

  pub all_fit : ℕ → Conditions → Bool
  all_fit d end = true
  all_fit d (more c cs) = fits d c && all_fit d cs

operator_of-name : (op : Operator) → operator_of (operator_name op) ≡ some op
operator_of-name eq = refl
operator_of-name ne = refl
operator_of-name lt = refl
operator_of-name le = refl
operator_of-name gt = refl
operator_of-name ge = refl
operator_of-name in_list = refl
operator_of-name not_in = refl
operator_of-name contains = refl
operator_of-name is_null = refl
operator_of-name not_null = refl

strings_of-items : (ss : List String) → strings_of (string_items ss) ≡ some ss
unfolding strings_of
strings_of-items [] = refl
strings_of-items (s ∷ ss) = rw (strings_of-items ss)

items_length-items : (cs : Conditions) → items_length (to_items cs) ≡ conditions_length cs
items_length-items end = refl
items_length-items (more c cs) = rw (items_length-items cs)

counted : (n : ℕ) → n + 1 ≤ 50 → count_leaf true n ≡ ok (n + 1)
unfolding raise_if
counted n h = let low : ltb 50 (n + 1) ≡ false = ground arith in rw (low)

-- One more leaf is counted.
limits-leaf :
    (d : ℕ) (f : String) (op : Operator) (v : LeafValue) (n : ℕ)
    → n + 1 ≤ 50
    → limits (suc d) (to_json (leaf (record { field = f; op = op; value = v }))) n ≡ ok (n + 1)
unfolding limits
limits-leaf d f op (string s) n h = rw (counted n h)
limits-leaf d f op (flag b) n h = rw (counted n h)
limits-leaf d f op (priced m) n h = rw (counted n h)
limits-leaf d f op (strings ss) n h = rw (counted n h)
limits-leaf d f op absent n h = rw (counted n h)

parts_ok :
    (given : Bool) (f : String) (op : Operator) (v : LeafValue)
    → (not (f === "") && (money_ok v && shape_ok given op v)) ≡ true
    → leaf_parts given f (some op) (some v) ≡ ok (leaf (record { field = f; op = op; value = v }))
unfolding raise_if
parts_ok given f op v h =
    let (named, Shaped) = and_elim (not (f === "")) (money_ok v && shape_ok given op v) h in
    let name : (f === "") ≡ false = ground arith in rw (name, Shaped)

validate-leaf :
    (d : ℕ) (f : String) (op : Operator) (v : LeafValue)
    → leaf_ok (record { field = f; op = op; value = v }) ≡ true
    → validate (suc d) (to_json (leaf (record { field = f; op = op; value = v })))
      ≡ ok (leaf (record { field = f; op = op; value = v }))
unfolding validate raise_if any all
validate-leaf d f op (string s) h = rw (operator_of-name op) (parts_ok true f op _ h)
validate-leaf d f op (flag b) h = rw (operator_of-name op) (parts_ok true f op _ h)
validate-leaf d f op (priced m) h = rw (operator_of-name op) (parts_ok true f op _ h)
validate-leaf d f op (strings ss) h =
    rw (operator_of-name op, strings_of-items ss) (parts_ok true f op _ h)
validate-leaf d f op absent h = rw (operator_of-name op) (parts_ok false f op _ h)

mutual
  unfolding limits each

  limits-json :
      (c : Condition) (d n : ℕ)
      → fits d c ≡ true
      → n + leaf_count c ≤ 50
      → limits d (to_json c) n ≡ ok (n + leaf_count c)
  limits-json (leaf l) zero n f h = cc
  limits-json (all_of cs) zero n f h = cc
  limits-json (any_of cs) zero n f h = cc
  limits-json (not_of c) zero n f h = cc
  limits-json (leaf l) (suc d) n f h = limits-leaf d l.field l.op l.value n h
  limits-json (all_of cs) (suc d) n f h =
      rw (each-items cs d n ((and_elim (one_to_twenty cs) (all_fit d cs) f).1) h)
  limits-json (any_of cs) (suc d) n f h =
      rw (each-items cs d n ((and_elim (one_to_twenty cs) (all_fit d cs) f).1) h)
  limits-json (not_of c) (suc d) n f h = limits-json c d n f h

  each-items :
      (cs : Conditions) (d n : ℕ)
      → all_fit d cs ≡ true
      → n + leaf_counts cs ≤ 50
      → each (limits d) (to_items cs) n ≡ ok (n + leaf_counts cs)
  each-items end d n f h = ap ok (omega arith)
  each-items (more c cs) d n f h =
      let (first, rest) = and_elim (fits d c) (all_fit d cs) f in
      rw (limits-json c d n first (omega arith))
        (each-items cs d (n + leaf_count c) rest (omega arith) ∙ ap ok (omega arith))

mutual
  unfolding validate read_items raise_if

  validate-json : (c : Condition) (d : ℕ) → fits d c ≡ true → validate d (to_json c) ≡ ok c
  validate-json (leaf l) zero f = cc
  validate-json (all_of cs) zero f = cc
  validate-json (any_of cs) zero f = cc
  validate-json (not_of c) zero f = cc
  validate-json (leaf l) (suc d) f = validate-leaf d l.field l.op l.value f
  validate-json (all_of cs) (suc d) f =
      let (count, rest) = and_elim (one_to_twenty cs) (all_fit d cs) f in
      rw (items_length-items cs, count, read_items-json cs d rest)
  validate-json (any_of cs) (suc d) f =
      let (count, rest) = and_elim (one_to_twenty cs) (all_fit d cs) f in
      rw (items_length-items cs, count, read_items-json cs d rest)
  validate-json (not_of c) (suc d) f = rw (validate-json c d f)

  read_items-json :
      (cs : Conditions) (d : ℕ)
      → all_fit d cs ≡ true
      → read_items (validate d) (to_items cs) ≡ ok cs
  read_items-json end d f = refl
  read_items-json (more c cs) d f =
      let (first, rest) = and_elim (fits d c) (all_fit d cs) f in
      rw (validate-json c d first, read_items-json cs d rest)

-- The JSON form of a condition of at most 6 levels and 50 leaves, whose lists have 1 to 20 children
-- and whose leaves are of a valid shape, is read as that condition.
pub parse_condition-json :
    (c : Condition) → fits 6 c ≡ true → leaf_count c ≤ 50 → parse_condition (to_json c) ≡ ok c
unfolding parse_condition
parse_condition-json c f h = rw (limits-json c 6 0 f (omega arith)) (validate-json c 6 f)
