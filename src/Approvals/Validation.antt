-- ===== src/Approvals/Validation.antt =====
-- The check of the leaves of a condition against the fields of a document:
-- apps/api/src/flo/modules/approvals/validation.py.
pub mod Safe
pub mod Parsed
use xlr8_flo.Common.{
  String, Bool, true, false, not, ◌&&◌, ◌||◌, Option, none, some, List, [], ◌∷◌, ◌++◌, all,
}
use xlr8_flo.Approvals.Values.{
  LeafValue, string, flag, priced, strings, absent, parse_amount, from_iso,
}
use xlr8_flo.Approvals.Conditions.{
  Operator, eq, ne, lt, le, gt, ge, in_list, not_in, contains, is_null, not_null, LeafCondition,
  Condition, leaf, all_of, any_of, not_of, Conditions, end, more, is_equality,
}
use xlr8_flo.Approvals.Grammar.{is_some, is_null_test, is_membership, is_order}

-- FieldType of schemas.py
pub data FieldType : Type 0 where
  text code decimal date boolean money code_list : FieldType

-- `operators` in `valid_leaf`
abbrev pub allowed : FieldType → Operator → Bool
allowed text op = is_equality op || is_membership op
allowed code op = is_equality op || is_membership op
allowed boolean op = is_equality op || is_membership op
allowed decimal op = is_equality op || is_order op || is_null_test op
allowed date op = is_equality op || is_order op || is_null_test op
allowed money op = is_equality op || is_order op || is_null_test op
allowed code_list contains = true
allowed code_list op = is_null_test op

-- One of the leaf's values. A text that is a date in another form of `fromisoformat` is not the text
-- that `isoformat` prints.
abbrev pub value_valid : FieldType → LeafValue → Bool
value_valid text (string s) = true
value_valid code (string s) = true
value_valid code_list (string s) = true
value_valid boolean (flag b) = true
value_valid money (priced m) = true
value_valid decimal (string s) = is_some (parse_amount s)
value_valid date (string s) = is_some (from_iso s)
value_valid _ _ = false

abbrev pub values_valid : FieldType → LeafValue → Bool
values_valid kind (strings ss) = all (λ s. value_valid kind (string s)) ss
values_valid kind v = value_valid kind v

unfoldable pub valid_leaf : LeafCondition → Option FieldType → Bool
valid_leaf c none = false
valid_leaf c (some kind) = allowed kind c.op && (is_null_test c.op || values_valid kind c.value)

unfoldable mutual
  pub leaves : Condition → List LeafCondition
  leaves (leaf c) = c ∷ []
  leaves (all_of cs) = leaves_of cs
  leaves (any_of cs) = leaves_of cs
  leaves (not_of c) = leaves c

  pub leaves_of : Conditions → List LeafCondition
  leaves_of end = []
  leaves_of (more c cs) = leaves c ++ leaves_of cs
