-- ===== src/Approvals/Writes.antt =====
-- The body of a decision: DecisionWrite of apps/api/src/flo/modules/approvals/schemas.py.
use xlr8_flo.Common.{ℕ, String, Bool, true, false, not, ◌&&◌, Option, none, some, List, ltb}
use xlr8_flo.Common.Equality.{String_eq}
use xlr8_flo.Common.Text.{strip, len, is_blank}
use xlr8_flo.Common.Problems.{Result, validation_failed, ok, ◌>>◌, raise_if}
use xlr8_flo.Approvals.Tables.{DecisionOutcome, approve, reject, comment, withdraw, RejectMode}

-- DecisionWrite, as the request gives it.
pub record DecisionWrite : Type 0 where
  pub outcome : DecisionOutcome
  pub reject_mode : Option RejectMode
  pub comment : Option String
  pub document_version : ℕ
  pub assign_project_id : Option ℕ
  pub substitutions : Option (List (String × String))

abbrev pub is_some {ℓ} : {A : Type ℓ} → Option A → Bool
is_some none = false
is_some (some a) = true

abbrev pub is_reject : DecisionOutcome → Bool
is_reject reject = true
is_reject _ = false

abbrev pub is_approve : DecisionOutcome → Bool
is_approve approve = true
is_approve _ = false

abbrev pub is_comment : DecisionOutcome → Bool
is_comment comment = true
is_comment _ = false

abbrev pub is_withdraw : DecisionOutcome → Bool
is_withdraw withdraw = true
is_withdraw _ = false

abbrev pub blank : Option String → Bool
blank none = false
blank (some c) = is_blank c

abbrev pub trimmed : Option String → Option String
trimmed none = none
trimmed (some c) = some (strip c)

abbrev pub too_long : Option String → Bool
too_long none = false
too_long (some c) = ltb 4000 (len c)

abbrev pub xor : Bool → Bool → Bool
xor true b = not b
xor false b = b

-- `validate_action`
unfoldable pub validate_action : DecisionWrite → Result DecisionWrite
validate_action body = do
  raise_if (is_withdraw body.outcome) (validation_failed "outcome")
  raise_if (too_long body.comment) (validation_failed "comment")
  raise_if (blank body.comment) (validation_failed "comment")
  raise_if (xor (is_reject body.outcome) (is_some body.reject_mode))
      (validation_failed "reject_mode")
  raise_if (not (is_approve body.outcome) && not (is_some body.comment))
      (validation_failed "comment")
  raise_if (is_some body.assign_project_id && not (is_approve body.outcome))
      (validation_failed "assign_project_id")
  ok (record body { comment = trimmed body.comment })
