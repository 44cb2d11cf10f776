-- ===== src/Approvals/Validation/Parsed.antt =====
-- The conditions that `parse_condition` returns, and their evaluation
-- (apps/api/src/flo/modules/approvals/schemas.py, validation.py and conditions.py).
use mathlib.Core.Path.{subst}
use xlr8_flo.Common.{
  ℕ, zero, suc, ◌≡◌, refl, sym, ap, ◌∙◌, inl, inr, String, true, false, not, Option, none, some,
  List, [], ◌∷◌, all, all-append, arith, and_elim, and_intro, some-injective, not-false, ◌⊎◌,
}
use xlr8_flo.Common.Equality.{◌===◌, String_eq}
use xlr8_flo.Common.Problems.{
  Result, ok, err, >>=-eq-ok, >>-eq-ok, ok-injective, if-ok, err-ne-ok, is_ok, condition_error,
}
use xlr8_flo.Approvals.Values.{LeafValue, absent}
use xlr8_flo.Approvals.Conditions.{
  Operator, LeafCondition, Condition, all_of, any_of, Conditions, Attributes, evaluate,
}
use xlr8_flo.Approvals.Grammar.{
  Json, null, boolean, number, text, array, object, Items, done, item, Fields, closed, entry,
  field_of, is_given, operator_of, value_of, money_ok, shape_ok, leaf_parts, leaf_of, read_items,
  children, child, read_object, read_json, limits, validate, parse_condition,
}
use xlr8_flo.Approvals.Grammar.RoundTrip.{leaf_ok, is_absent}
use xlr8_flo.Approvals.Validation.{FieldType, valid_leaf, leaves, leaves_of}
use xlr8_flo.Approvals.Validation.Safe.{Conforms, checked, visit-Safe}

abbrev Shaped : Condition → Type 0
Shaped c = all leaf_ok (leaves c) ≡ true

-- A null test is accepted without the key, so without a value.
given-absent :
    (o : Option Json) (op : Operator) {v : LeafValue}
    → value_of o ≡ some v
    → shape_ok (is_given o) op v ≡ true
    → shape_ok (not (is_absent v)) op v ≡ true
given-absent none op {v} e h =
    let same : absent ≡ v = some-injective e in
    subst (λ w. shape_ok (not (is_absent w)) op w ≡ true) same
      (subst (λ w. shape_ok false op w ≡ true) (sym same) h)
given-absent (some j) op {v} e h = ground arith

leaf_parts-Shaped :
    (o : Option Json) (f : String) (op : Option Operator) (v : Option LeafValue) {c : Condition}
    → value_of o ≡ v
    → leaf_parts (is_given o) f op v ≡ ok c
    → Shaped c
unfolding leaves all
leaf_parts-Shaped o f none v e h = cc
leaf_parts-Shaped o f (some op) none e h = cc
leaf_parts-Shaped o f (some op) (some v) e h =
    let (named, h₁) = >>-eq-ok _ _ _ h in
    let (fine, h₂) = >>-eq-ok _ _ _ h₁ in
    let (amount, shape) = and_elim (money_ok v) (shape_ok (is_given o) op v) (not-false _ fine) in
    let name : not (f === "") ≡ true = ap not named in
    subst Shaped (ok-injective h₂) (
      and_intro _ _
        (and_intro (not (f === "")) _ name
          (and_intro (money_ok v) _ amount (given-absent o op e shape)))
        refl)

leaf_of-Shaped :
    (fields : Fields) (f op : Option Json) {c : Condition} → leaf_of fields f op ≡ ok c → Shaped c
leaf_of-Shaped fields (some (text f)) (some (text op)) h =
    let (_, h₁) = >>-eq-ok _ _ _ h in
    leaf_parts-Shaped (field_of "value" fields) f (operator_of op) _ refl h₁
leaf_of-Shaped fields f op h = absurd (err-ne-ok h)

module _ (read : Json → Result Condition)
    (sound : (j : Json) (c : Condition) → read j ≡ ok c → Shaped c) where
  read_items-shaped :
      (vs : Items) {cs : Conditions}
      → read_items read vs ≡ ok cs
      → all leaf_ok (leaves_of cs) ≡ true
  unfolding read_items leaves all
  read_items-shaped done h = subst (λ cs. all leaf_ok (leaves_of cs) ≡ true) (ok-injective h) refl
  read_items-shaped (item v vs) h =
      let (c, first, h₁) = >>=-eq-ok (read v) _ h in
      let (cs, rest, h₂) = >>=-eq-ok (read_items read vs) _ h₁ in
      subst (λ cs. all leaf_ok (leaves_of cs) ≡ true) (ok-injective h₂)
        (all-append leaf_ok (leaves c) (leaves_of cs)
          ∙ and_intro _ _ (sound v c first) (read_items-shaped vs rest))

  children-Shaped :
      (wrap : Conditions → Condition) (j : Json) {c : Condition}
      → ((cs : Conditions) → leaves (wrap cs) ≡ leaves_of cs)
      → children read wrap j ≡ ok c
      → Shaped c
  children-Shaped wrap (array vs) same h =
      let (_, h₁) = >>-eq-ok _ _ _ h in
      let (cs, parsed, h₂) = >>=-eq-ok (read_items read vs) _ h₁ in
      subst Shaped (ok-injective h₂)
        (subst (λ ls. all leaf_ok ls ≡ true) (sym (same cs)) (read_items-shaped vs parsed))
  children-Shaped wrap j same h = absurd (err-ne-ok h)

  child-Shaped : (j : Json) {c : Condition} → child read j ≡ ok c → Shaped c
  unfolding leaves
  child-Shaped j h =
      let (c, parsed, h₁) = >>=-eq-ok (read j) _ h in
      subst Shaped (ok-injective h₁) (sound j c parsed)

  read_single-Shaped :
      (k : String) (v : Json) {c : Condition}
      → read_object read (entry k v closed) ≡ ok c
      → Shaped c
  unfolding leaves
  read_single-Shaped k v {c} h = elim (if-ok (k === "all") _ _ h) [
    | inl (_, here) ↦ children-Shaped all_of v (λ cs. refl) here
    | inr (_, h₁) ↦ elim (if-ok (k === "any") _ _ h₁) [
      | inl (_, here) ↦ children-Shaped any_of v (λ cs. refl) here
      | inr (_, h₂) ↦ elim (if-ok (k === "not") _ _ h₂) [
        | inl (_, here) ↦ child-Shaped v here
        | inr (_, h₃) ↦ absurd (err-ne-ok h₃)
      ]
    ]
  ]

  read_json-Shaped : (j : Json) {c : Condition} → read_json read j ≡ ok c → Shaped c
  read_json-Shaped (object (entry k v closed)) h = read_single-Shaped k v h
  read_json-Shaped (object closed) h = leaf_of-Shaped closed none none h
  read_json-Shaped (object (entry k v (entry l w rest))) h =
      leaf_of-Shaped (entry k v (entry l w rest)) _ _ h
  read_json-Shaped null h = absurd (err-ne-ok h)
  read_json-Shaped (boolean b) h = absurd (err-ne-ok h)
  read_json-Shaped (number n) h = absurd (err-ne-ok h)
  read_json-Shaped (text s) h = absurd (err-ne-ok h)
  read_json-Shaped (array vs) h = absurd (err-ne-ok h)

validate-Shaped : (d : ℕ) (j : Json) (c : Condition) → validate d j ≡ ok c → Shaped c
unfolding validate
validate-Shaped zero j c h = absurd (err-ne-ok h)
validate-Shaped (suc d) j c h = read_json-Shaped (validate d) (validate-Shaped d) j h

both :
    (catalog : String → Option FieldType) (cs : List LeafCondition)
    → all (λ l. valid_leaf l (catalog l.field)) cs ≡ true
    → all leaf_ok cs ≡ true
    → all (checked catalog) cs ≡ true
unfolding all
both catalog [] h k = refl
both catalog (c ∷ cs) h k =
    let (h₁, h₂) = and_elim (valid_leaf c (catalog c.field)) _ h in
    let (k₁, k₂) = and_elim (leaf_ok c) _ k in
    and_intro _ _ (and_intro _ _ h₁ k₁) (both catalog cs h₂ k₂)

-- A condition that `parse_condition` reads, whose leaves pass `valid_leaf` against the catalogue of
-- fields, evaluates on attributes of those fields to a result, or stops at two amounts of different
-- currencies; no type or value error is raised.
pub evaluate-Safe :
    (casefold : String → String) (catalog : String → Option FieldType) (attributes : Attributes)
    (j : Json) (c : Condition)
    → parse_condition j ≡ ok c
    → all (λ l. valid_leaf l (catalog l.field)) (leaves c) ≡ true
    → Conforms catalog attributes
    → (is_ok (evaluate casefold c attributes) ≡ true)
      ⊎ ((field : String) × (evaluate casefold c attributes ≡ err (condition_error field)))
unfolding parse_condition evaluate
evaluate-Safe casefold catalog attributes j c h valid typed =
    let (_, _, read) = >>=-eq-ok (limits 6 j 0) _ h in
    visit-Safe casefold catalog attributes typed c []
      (both catalog (leaves c) valid (validate-Shaped 6 j c read))
