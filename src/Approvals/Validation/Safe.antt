-- ===== src/Approvals/Validation/Safe.antt =====
-- Conditions that pass the check against the catalogue of fields, on attributes of those fields
-- (apps/api/src/flo/modules/approvals/validation.py and conditions.py).
use mathlib.Core.Path.{subst}
use xlr8_flo.Common.{
  ◌≡◌, refl, sym, ◌∙◌, ◌⊎◌, inl, inr, String, Bool, true, false, ◌&&◌, ◌||◌, Option, none, some,
  List, all, all-append, arith, and_elim, Bool-cases, Option-cases,
}
use xlr8_flo.Common.Int.{ℤ}
use xlr8_flo.Common.Equality.{◌===◌, String_eq}
use xlr8_flo.Common.Problems.{condition_error, Result, ok, err, ◌>>=◌, raise_if, is_ok}
use xlr8_flo.Approvals.Values.{
  Date, AttributeValue, LeafValue, string, flag, priced, strings, absent, parse_amount, from_iso,
}
use xlr8_flo.Approvals.Conditions.{
  Operator, eq, ne, lt, le, gt, ge, in_list, not_in, contains, is_null, not_null, LeafCondition,
  Condition, leaf, all_of, any_of, not_of, Conditions, end, more, Attributes, get, LeafTrace,
  against_amount, against_date, compare_values, is_equality, is_null_attribute, compare_present,
  compare, visit, visit_leaf, visit_all, visit_any,
}
use xlr8_flo.Approvals.Grammar.{is_some, is_order, money_ok, is_null_test, is_membership}
use xlr8_flo.Approvals.Grammar.RoundTrip.{leaf_ok}
use xlr8_flo.Approvals.Validation.{FieldType, allowed, value_valid, valid_leaf, leaves, leaves_of}

-- An attribute of a field's type, or none.
abbrev pub of_kind : FieldType → AttributeValue → Bool
of_kind kind AttributeValue.null = true
of_kind FieldType.text (AttributeValue.text s) = true
of_kind FieldType.code (AttributeValue.text s) = true
of_kind FieldType.decimal (AttributeValue.decimal d) = true
of_kind FieldType.date (AttributeValue.day_of d) = true
of_kind FieldType.boolean (AttributeValue.boolean b) = true
of_kind FieldType.money (AttributeValue.money m) = true
of_kind FieldType.code_list (AttributeValue.code_list cs) = true
of_kind _ _ = false

-- The attributes of a document have the types that the catalogue gives.
abbrev pub Conforms : (String → Option FieldType) → Attributes → Type 0
Conforms catalog attributes =
    (name : String) (kind : FieldType)
    → catalog name ≡ some kind
    → of_kind kind (get name attributes) ≡ true

-- A leaf that the check accepts, of a shape that the parser accepts.
abbrev pub checked : (String → Option FieldType) → LeafCondition → Bool
checked catalog c = valid_leaf c (catalog c.field) && leaf_ok c

-- It returns, or two currencies were compared.
abbrev pub Safe : {A : Type 0} → Result A → Type 0
Safe r = (is_ok r ≡ true) ⊎ ((field : String) × (r ≡ err (condition_error field)))

>>=-Safe :
    {A B : Type 0} (r : Result A) (f : A → Result B)
    → Safe r
    → ((a : A) → Safe (f a))
    → Safe (r >>= f)
>>=-Safe (ok a) f h k = k a
>>=-Safe (err e) f (inl h) k = cc
>>=-Safe (err e) f (inr (field, h)) k = inr (field, cc)

next-Safe :
    {A : Type 0} (b : Bool) (x y : Result A)
    → Safe x
    → Safe y
    → Safe (elim b as (λ c. Result A) [ true ↦ x | false ↦ y ])
next-Safe true x y h k = h
next-Safe false x y h k = k

against_amount-Safe :
    (op : Operator) (left : ℤ) (o : Option ℤ) → is_some o ≡ true → Safe (against_amount op left o)
against_amount-Safe op left none h = cc
against_amount-Safe op left (some right) h = inl refl

against_date-Safe :
    (op : Operator) (left : Date) (o : Option Date)
    → is_some o ≡ true
    → Safe (against_date op left o)
against_date-Safe op left none h = cc
against_date-Safe op left (some right) h = inl refl

-- Values of the field's type compare under an operator that the type has.
values-Safe :
    (field : String) (op : Operator) (v : LeafValue) (kind : FieldType) (a : AttributeValue)
    → (is_equality op || is_order op) ≡ true
    → allowed kind op ≡ true
    → value_valid kind v ≡ true
    → money_ok v ≡ true
    → is_null_attribute a ≡ false
    → of_kind kind a ≡ true
    → Safe (compare_values field op a v)
unfolding compare_values raise_if
values-Safe field op (string b) kind (AttributeValue.text s) o h v w n m = inl refl
values-Safe field op (flag b) kind (AttributeValue.boolean c) o h v w n m = inl refl
values-Safe field op (string b) FieldType.decimal (AttributeValue.decimal d) o h v w n m =
    against_amount-Safe op d (parse_amount b) v
values-Safe field op (string b) FieldType.date (AttributeValue.day_of d) o h v w n m =
    against_date-Safe op d (from_iso b) v
values-Safe field op (priced p) kind (AttributeValue.money x) o h v w n m =
    elim (Bool-cases (x.currency === p.currency)) [
      | inl same ↦
          rw (same) (against_amount-Safe op x.amount (parse_amount p.amount) ((and_elim _ _ w).0))
      | inr other ↦ rw (other) (inr (field, refl))
    ]
values-Safe field op v FieldType.text a o h u w n m = ground arith
values-Safe field op v FieldType.code a o h u w n m = ground arith
values-Safe field op v FieldType.decimal a o h u w n m = ground arith
values-Safe field op v FieldType.date a o h u w n m = ground arith
values-Safe field op v FieldType.boolean a o h u w n m = ground arith
values-Safe field op v FieldType.money a o h u w n m = ground arith
values-Safe field op v FieldType.code_list a o h u w n m = ground arith

compared-Safe :
    (field : String) (op : Operator) (v : LeafValue) (kind : FieldType) (a : AttributeValue)
    → (is_equality op || is_order op) ≡ true
    → is_null_test op ≡ false
    → is_membership op ≡ false
    → valid_leaf (record { field = field; op = op; value = v }) (some kind) ≡ true
    → leaf_ok (record { field = field; op = op; value = v }) ≡ true
    → is_null_attribute a ≡ false
    → of_kind kind a ≡ true
    → Safe (compare_values field op a v)
unfolding valid_leaf
compared-Safe field op (strings ss) kind a o t p h k n m = absurd (ground arith)
compared-Safe field op (string s) kind a o t p h k n m =
    values-Safe field op (string s) kind a o (ground arith) (ground arith) refl n m
compared-Safe field op (flag b) kind a o t p h k n m =
    values-Safe field op (flag b) kind a o (ground arith) (ground arith) refl n m
compared-Safe field op (priced q) kind a o t p h k n m =
    values-Safe field op (priced q) kind a o (ground arith) (ground arith) (ground arith) n m
compared-Safe field op absent kind a o t p h k n m =
    values-Safe field op absent kind a o (ground arith) (ground arith) refl n m

unknown_field : (c : LeafCondition) → valid_leaf c none ≡ true → ⊥
unfolding valid_leaf
unknown_field c h = cc

module _ (casefold : String → String) where
  present-Safe :
      (field : String) (op : Operator) (v : LeafValue) (kind : FieldType) (a : AttributeValue)
      → valid_leaf (record { field = field; op = op; value = v }) (some kind) ≡ true
      → leaf_ok (record { field = field; op = op; value = v }) ≡ true
      → is_null_attribute a ≡ false
      → of_kind kind a ≡ true
      → Safe (compare_present casefold field op a v)
  present-Safe field is_null v kind a h k n m = inl refl
  present-Safe field not_null v kind a h k n m = inl refl
  present-Safe field in_list v kind a h k n m = inl refl
  present-Safe field not_in v kind a h k n m = inl refl
  present-Safe field contains v kind a h k n m = inl refl
  present-Safe field eq v kind a h k n m = compared-Safe field eq v kind a refl refl refl h k n m
  present-Safe field ne v kind a h k n m = compared-Safe field ne v kind a refl refl refl h k n m
  present-Safe field lt v kind a h k n m = compared-Safe field lt v kind a refl refl refl h k n m
  present-Safe field le v kind a h k n m = compared-Safe field le v kind a refl refl refl h k n m
  present-Safe field gt v kind a h k n m = compared-Safe field gt v kind a refl refl refl h k n m
  present-Safe field ge v kind a h k n m = compared-Safe field ge v kind a refl refl refl h k n m

  compare-Safe :
      (c : LeafCondition) (kind : FieldType) (a : AttributeValue)
      → valid_leaf c (some kind) ≡ true
      → leaf_ok c ≡ true
      → of_kind kind a ≡ true
      → Safe (compare casefold c a)
  unfolding compare
  compare-Safe c kind a h k m = elim (Bool-cases (is_null_attribute a)) [
    | inl missing ↦ rw (missing) (inl refl)
    | inr present ↦ rw (present) (present-Safe c.field c.op c.value kind a h k present m)
  ]

  module _ (catalog : String → Option FieldType) (attributes : Attributes)
      (typed : Conforms catalog attributes) where
    leaf-Safe :
        (c : LeafCondition) (trace : List LeafTrace)
        → checked catalog c ≡ true
        → Safe (visit_leaf casefold attributes c trace)
    unfolding visit_leaf valid_leaf
    leaf-Safe c trace h =
        let (valid, Shaped) = and_elim (valid_leaf c (catalog c.field)) (leaf_ok c) h in
        elim (Option-cases (catalog c.field)) [
          | inl unknown ↦
              absurd (unknown_field c (subst (λ o. valid_leaf c o ≡ true) unknown valid))
          | inr (kind, known) ↦
              >>=-Safe (compare casefold c (get c.field attributes)) _
                (compare-Safe c kind (get c.field attributes)
                  (subst (λ o. valid_leaf c o ≡ true) known valid) Shaped
                  (typed c.field kind known))
                (λ b. inl refl)
        ]

    mutual
      unfolding visit leaves all

      pub visit-Safe :
          (c : Condition) (trace : List LeafTrace)
          → all (checked catalog) (leaves c) ≡ true
          → Safe (visit casefold attributes c trace)
      visit-Safe (leaf c) trace h = leaf-Safe c trace ((and_elim (checked catalog c) true h).0)
      visit-Safe (all_of cs) trace h = visit_all-Safe cs trace h
      visit-Safe (any_of cs) trace h = visit_any-Safe cs trace h
      visit-Safe (not_of c) trace h =
          >>=-Safe (visit casefold attributes c trace) _ (visit-Safe c trace h) (λ p. inl refl)

      visit_all-Safe :
          (cs : Conditions) (trace : List LeafTrace)
          → all (checked catalog) (leaves_of cs) ≡ true
          → Safe (visit_all casefold attributes cs trace)
      visit_all-Safe end trace h = inl refl
      visit_all-Safe (more c cs) trace h =
          let (first, rest) =
            and_elim (all (checked catalog) (leaves c)) (all (checked catalog) (leaves_of cs))
              (sym (all-append (checked catalog) (leaves c) (leaves_of cs)) ∙ h) in
          >>=-Safe (visit casefold attributes c trace) _ (visit-Safe c trace first)
            (λ p. next-Safe p.0 _ _ (visit_all-Safe cs p.1 rest) (inl refl))

      visit_any-Safe :
          (cs : Conditions) (trace : List LeafTrace)
          → all (checked catalog) (leaves_of cs) ≡ true
          → Safe (visit_any casefold attributes cs trace)
      visit_any-Safe end trace h = inl refl
      visit_any-Safe (more c cs) trace h =
          let (first, rest) =
            and_elim (all (checked catalog) (leaves c)) (all (checked catalog) (leaves_of cs))
              (sym (all-append (checked catalog) (leaves c) (leaves_of cs)) ∙ h) in
          >>=-Safe (visit casefold attributes c trace) _ (visit-Safe c trace first)
            (λ p. next-Safe p.0 _ _ (inl refl) (visit_any-Safe cs p.1 rest))
