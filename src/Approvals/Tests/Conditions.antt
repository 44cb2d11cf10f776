-- ===== src/Approvals/Tests/Conditions.antt =====
-- Conditions on a request at work.
use xlr8_flo.Common.{
  ◌≡◌, refl, ◌⊎◌, inl, inr, String, true, false, Option, none, some, [], ◌∷◌, all, any, arith,
  if◌then◌else◌, Bool-cases, some-injective, none-ne-some,
}
use mathlib.Core.Path.{subst}
use xlr8_flo.Common.Int.{pos}
use xlr8_flo.Common.Equality.{◌===◌, String_eq}
use xlr8_flo.Common.Problems.{ok, err, is_ok, condition_error, raise_if}
use xlr8_flo.Money.{currency_exponent, exponent_of, is_code, is_upper, is_lower}
use xlr8_flo.Money.Currencies.{iso4217}
use xlr8_flo.Approvals.Values.{
  AttributeValue, priced, strings, span_digits, number, parse_amount, from_iso,
}
use xlr8_flo.Approvals.Conditions.{
  Condition, leaf, all_of, not_of, end, more, gt, in_list, Attributes, get, LeafTrace,
  compare_values, compare, visit_leaf, visit, evaluate,
}
use xlr8_flo.Approvals.Conditions.Truth.{truth, holds, AllRecorded, evaluate-truth}
use xlr8_flo.Approvals.Grammar.{parse_condition}
use xlr8_flo.Approvals.Grammar.RoundTrip.{to_json, fits, parse_condition-json}
use xlr8_flo.Approvals.Validation.{FieldType, valid_leaf, leaves}
use xlr8_flo.Approvals.Validation.Safe.{Conforms, of_kind}
use xlr8_flo.Approvals.Validation.Parsed.{evaluate-Safe}

-- Over 1000 EUR, and not for one of two departments.
abbrev large : Condition
large = all_of (
    more
      (leaf (record {
        field = "amount";
        op = gt;
        value = priced (record { amount = "1000.00"; currency = "EUR" });
      }))
      (more
        (not_of (
          leaf (record { field = "department"; op = in_list; value = strings ("HR" ∷ "IT" ∷ []) })))
        end))

abbrev pub request : Attributes
request =
    ("amount", AttributeValue.money (record { amount = pos 12500000; currency = "EUR" }))
    ∷ ("department", AttributeValue.text "SALES")
    ∷ []

abbrev pub same_case : String → String
same_case s = s

large-fits : fits 6 large ≡ true
unfolding parse_amount from_iso span_digits number currency_exponent exponent_of is_code is_upper
    is_lower any all raise_if iso4217
large-fits = refl

parse_condition-json_example : parse_condition (to_json large) ≡ ok large
parse_condition-json_example = parse_condition-json large large-fits (omega arith)

abbrev pub amount_trace : LeafTrace
amount_trace = record {
  field = "amount";
  op = gt;
  expected = priced (record { amount = "1000.00"; currency = "EUR" });
  actual = AttributeValue.money (record { amount = pos 12500000; currency = "EUR" });
  result = true;
}

abbrev department_trace : LeafTrace
department_trace = record {
  field = "department";
  op = in_list;
  expected = strings ("HR" ∷ "IT" ∷ []);
  actual = AttributeValue.text "SALES";
  result = false;
}

large_holds : evaluate same_case large request ≡ ok (true, amount_trace ∷ department_trace ∷ [])
unfolding evaluate visit visit_leaf get compare compare_values parse_amount span_digits number
    raise_if any
large_holds = refl

evaluate-truth_example :
    (true ≡ truth (holds same_case request) large)
    × AllRecorded same_case request (amount_trace ∷ department_trace ∷ [])
evaluate-truth_example = evaluate-truth same_case request large large_holds

abbrev catalog : String → Option FieldType
catalog name =
    if "amount" === name
    then some FieldType.money
    else if "department" === name
    then some FieldType.code
    else none

request-Conforms : Conforms catalog request
unfolding get
request-Conforms name kind h = elim (Bool-cases ("amount" === name)) [
  | inl amount ↦ rw (amount) (
      subst (λ k. of_kind k (get "amount" request) ≡ true) (some-injective (rw (amount) at h)) refl)
  | inr other ↦ elim (Bool-cases ("department" === name)) [
    | inl department ↦
        rw (other, department)
          (subst (λ k. of_kind k (get "department" request) ≡ true)
            (some-injective (rw (other, department) at h)) refl)
    | inr unknown ↦ absurd (none-ne-some (rw (other, unknown) at h))
  ]
]

large-valid : all (λ l. valid_leaf l (catalog l.field)) (leaves large) ≡ true
unfolding all valid_leaf leaves
large-valid = refl

evaluate-Safe_example :
    (is_ok (evaluate same_case large request) ≡ true)
    ⊎ ((field : String) × (evaluate same_case large request ≡ err (condition_error field)))
evaluate-Safe_example =
    evaluate-Safe same_case catalog request (to_json large) large parse_condition-json_example
      large-valid request-Conforms
