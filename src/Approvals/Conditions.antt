-- ===== src/Approvals/Conditions.antt =====
-- apps/api/src/flo/modules/approvals/conditions.py: the evaluation of a condition on the attributes
-- of a document.
pub mod Truth
use Prim.Native.Char.{code}
use xlr8_flo.Common.{
  ℕ, String, Bool, true, false, not, ◌&&◌, ◌||◌, Option, none, some, List, [], ◌∷◌, ◌++◌, ltb, leb,
  ◌==◌, if◌then◌else◌, any,
}
use xlr8_flo.Common.Int.{ℤ, ltb_ℤ, leb_ℤ}
use xlr8_flo.Common.Equality.{◌===◌, String_eq, ℤ_eq, Bool_beq}
use xlr8_flo.Common.Problems.{
  value_error, type_error, condition_error, Result, ok, err, ◌>>=◌, ◌>>◌, raise_if,
}
use xlr8_flo.Money.{Money}
use xlr8_flo.Approvals.Values.{
  Date, date_lt, date_eq, AttributeValue, text, decimal, day_of, boolean, null, code_list, money,
  MoneyValue, LeafValue, string, flag, priced, strings, absent, codes, parse_amount, from_iso,
}

-- Operator
pub data Operator : Type 0 where
  eq ne lt le gt ge in_list not_in contains is_null not_null : Operator

pub record LeafCondition : Type 0 where
  pub field : String
  pub op : Operator
  pub value : LeafValue

mutual
  pub data Condition : Type 0 where
    leaf : LeafCondition → Condition
    all_of : Conditions → Condition
    any_of : Conditions → Condition
    not_of : Condition → Condition

  pub data Conditions : Type 0 where
    end : Conditions
    more : Condition → Conditions → Conditions

-- A mapping of attributes, by name.
abbrev pub Attributes : Type 0
Attributes = List (String × AttributeValue)

-- `attributes.get(name)`
unfoldable pub get : String → Attributes → AttributeValue
get name [] = null
get name ((k, v) ∷ rest) = if k === name then v else get name rest

abbrev pub mem : String → List String → Bool
mem s ss = any (λ t. t === s) ss

abbrev pub is_prefix : List ℕ → List ℕ → Bool
is_prefix [] ys = true
is_prefix (x ∷ xs) [] = false
is_prefix (x ∷ xs) (y ∷ ys) = x == y && is_prefix xs ys

-- `needle in hay`
abbrev pub within : List ℕ → List ℕ → Bool
within needle [] = is_prefix needle []
within needle (y ∷ ys) = is_prefix needle (y ∷ ys) || within needle ys

-- `left < right` of two texts
abbrev pub lex_lt : List ℕ → List ℕ → Bool
lex_lt xs [] = false
lex_lt [] (y ∷ ys) = true
lex_lt (x ∷ xs) (y ∷ ys) = ltb x y || x == y && lex_lt xs ys

-- The answer of an operator, from those of `==` and `<` on two values of one type.
abbrev pub ordered : Operator → Bool → Bool → Bool
ordered eq same below = same
ordered ne same below = not same
ordered lt same below = below
ordered le same below = below || same
ordered gt same below = not below && not same
ordered _ same below = not below

abbrev pub is_equality : Operator → Bool
is_equality eq = true
is_equality ne = true
is_equality _ = false

-- `left` and `right` are a text and a Boolean: they differ, and have no order.
abbrev pub mixed : Operator → Result Bool
mixed op = if is_equality op then ok (ordered op false false) else err type_error

abbrev pub bool_lt : Bool → Bool → Bool
bool_lt a b = not a && b

abbrev pub against_amount : Operator → ℤ → Option ℤ → Result Bool
against_amount op left none = err value_error
against_amount op left (some right) = ok (ordered op (left === right) (ltb_ℤ left right))

abbrev pub against_date : Operator → Date → Option Date → Result Bool
against_date op left none = err value_error
against_date op left (some right) = ok (ordered op (date_eq left right) (date_lt left right))

-- The two values of one type, or an error.
unfoldable pub compare_values : String → Operator → AttributeValue → LeafValue → Result Bool
compare_values field op (money m) (priced v) = do
  raise_if (not (m.currency === v.currency)) (condition_error field)
  against_amount op m.amount (parse_amount v.amount)
compare_values field op (decimal d) (string s) = against_amount op d (parse_amount s)
compare_values field op (day_of d) (string s) = against_date op d (from_iso s)
compare_values field op (text a) (string b) = ok (ordered op (a === b) (lex_lt (codes a) (codes b)))
compare_values field op (text a) (flag b) = mixed op
compare_values field op (boolean a) (string b) = mixed op
compare_values field op (boolean a) (flag b) = ok (ordered op (Bool_beq a b) (bool_lt a b))
compare_values field op _ _ = err type_error

-- `actual in expected`
abbrev pub member : AttributeValue → LeafValue → Bool
member (text a) (strings ss) = mem a ss
member _ _ = false

abbrev pub is_null_attribute : AttributeValue → Bool
is_null_attribute null = true
is_null_attribute _ = false

abbrev pub true_of_null : Operator → Bool
true_of_null is_null = true
true_of_null ne = true
true_of_null _ = false

-- One recorded comparison; its values are those that `render` prints.
pub record LeafTrace : Type 0 where
  pub field : String
  pub op : Operator
  pub expected : LeafValue
  pub actual : AttributeValue
  pub result : Bool

-- `str.casefold` is Python's, on all of Unicode.
module _ (casefold : String → String) where
  abbrev pub contained : AttributeValue → LeafValue → Bool
  contained (text a) (string b) = within (codes (casefold b)) (codes (casefold a))
  contained (code_list cs) (string b) = mem b cs
  contained _ _ = false

  abbrev pub compare_present : String → Operator → AttributeValue → LeafValue → Result Bool
  compare_present field is_null actual expected = ok false
  compare_present field not_null actual expected = ok true
  compare_present field in_list actual expected = ok (member actual expected)
  compare_present field not_in actual expected = ok (not (member actual expected))
  compare_present field contains actual expected = ok (contained actual expected)
  compare_present field op actual expected = compare_values field op actual expected

  unfoldable pub compare : LeafCondition → AttributeValue → Result Bool
  compare c actual =
      if is_null_attribute actual
      then ok (true_of_null c.op)
      else compare_present c.field c.op actual c.value

  unfoldable pub visit_leaf :
      Attributes → LeafCondition → List LeafTrace → Result (Bool × List LeafTrace)
  visit_leaf attributes c trace = do
    let actual = get c.field attributes
    result ← compare c actual
    ok (
      result,
      trace
          ++ (record {
            field = c.field;
            op = c.op;
            expected = c.value;
            actual = actual;
            result = result;
          })
            ∷ [],
    )

  -- `all` and `any` stop at the first child that decides.
  unfoldable mutual
    pub visit : Attributes → Condition → List LeafTrace → Result (Bool × List LeafTrace)
    visit attributes (leaf c) trace = visit_leaf attributes c trace
    visit attributes (all_of cs) trace = visit_all attributes cs trace
    visit attributes (any_of cs) trace = visit_any attributes cs trace
    visit attributes (not_of c) trace = do
      (b, trace₁) ← visit attributes c trace
      ok (not b, trace₁)

    pub visit_all : Attributes → Conditions → List LeafTrace → Result (Bool × List LeafTrace)
    visit_all attributes end trace = ok (true, trace)
    visit_all attributes (more c cs) trace = do
      (b, trace₁) ← visit attributes c trace
      elim b [ true ↦ visit_all attributes cs trace₁ | false ↦ ok (false, trace₁) ]

    pub visit_any : Attributes → Conditions → List LeafTrace → Result (Bool × List LeafTrace)
    visit_any attributes end trace = ok (false, trace)
    visit_any attributes (more c cs) trace = do
      (b, trace₁) ← visit attributes c trace
      elim b [ true ↦ ok (true, trace₁) | false ↦ visit_any attributes cs trace₁ ]

  unfoldable pub evaluate : Condition → Attributes → Result (Bool × List LeafTrace)
  evaluate condition attributes = visit attributes condition []
