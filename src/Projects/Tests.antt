-- ===== src/Projects/Tests.antt =====
-- The lifecycle of one project at work.
use xlr8_flo.Common.{
  ◌+◌, ◌≤◌, String, ◌≡◌, refl, ◌⊎◌, Bool, true, false, Option, none, some, [], ◌∷◌, find, any, ℕ,
  ◌≢◌,
}
use xlr8_flo.Common.Text.{strip, strip_left, strip_right, len}
use xlr8_flo.Common.Int.{pos}
use xlr8_flo.Common.Problems.{Result, ok, err, forbidden, raise_if}
use xlr8_flo.Ledger.Tables.{ProjectStatus, draft, approval_pending, active, completed}
use xlr8_flo.Projects.Lifecycle.{
  ProjectRow, TransitionCreate, Projects, Views, version, rule_of, reason_of, override_permission,
  row_of, holds_anything, blocked_by_holdings, joined, incomplete, submitted_by, problems_of,
  evaluate, set_status, write, expected_version, raise_first, locked_row, transition,
  approval_outcome, abandon,
}
use xlr8_flo.Projects.Lifecycle.Legal.{transition-legal}
use xlr8_flo.Projects.Lifecycle.FourEyes.{is_submission, transition-four_eyes}
use xlr8_flo.Projects.Lifecycle.Closing.{Free, Step-closing}
use xlr8_flo.Projects.Lifecycle.Closed.{none_left, one_more, by_transition, closed-stays}

abbrev plan : ProjectRow
plan = record {
  id = 1;
  status = draft;
  version = 1;
  name = "Bridge";
  bu_id = some 1;
  department_code = "D1";
  ledger_account_code = "L1";
  currency = "EUR";
}

abbrev views : Views
views = record {
  blocked_of = λ id. record { reserved = pos 0; committed = pos 0; open_documents = pos 0 };
  active_instance = λ id. false;
  require_workflow = λ bu. ok tt;
}

abbrev grants : String → Bool
grants permission = true

abbrev projects_of : Result Projects → Projects
projects_of (ok db) = db
projects_of (err e) = record { rows = []; events = [] }

abbrev start : Projects
start = record { rows = plan ∷ []; events = [] }

abbrev to : ProjectStatus → TransitionCreate
to s = record { to = s; reason = none; override = false }

abbrev submitted : Projects
submitted = projects_of (transition (some 7) grants views 1 (to approval_pending) (version 1) start)

abbrev activated : Projects
activated = projects_of (transition (some 8) grants views 1 (to active) (version 2) submitted)

abbrev finished : Projects
finished = projects_of (transition (some 8) grants views 1 (to completed) (version 3) activated)

submits : transition (some 7) grants views 1 (to approval_pending) (version 1) start ≡ ok submitted
unfolding find raise_if strip strip_left strip_right row_of holds_anything blocked_by_holdings
    joined incomplete submitted_by problems_of evaluate set_status write expected_version
    raise_first locked_row transition approval_outcome abandon
submits = refl

activates : transition (some 8) grants views 1 (to active) (version 2) submitted ≡ ok activated
unfolding find raise_if strip strip_left strip_right row_of holds_anything blocked_by_holdings
    joined incomplete submitted_by problems_of evaluate set_status write expected_version
    raise_first locked_row transition approval_outcome abandon
activates = refl

finishes : transition (some 8) grants views 1 (to completed) (version 3) activated ≡ ok finished
unfolding find raise_if strip strip_left strip_right row_of holds_anything blocked_by_holdings
    joined incomplete submitted_by problems_of evaluate set_status write expected_version
    raise_first locked_row transition approval_outcome abandon
finishes = refl

own_approval :
    transition (some 7) grants views 1 (to active) (version 2) submitted
    ≡ err (forbidden "submitter")
unfolding find raise_if strip strip_left strip_right row_of holds_anything blocked_by_holdings
    joined incomplete submitted_by problems_of evaluate set_status write expected_version
    raise_first locked_row transition approval_outcome abandon
own_approval = refl

transition-legal_example :
    (p : ProjectRow) × (row_of 1 start.rows ≡ some p)
    × (permission : String) × (needs_reason : Bool) × ◌≡◌ {A = Option (String × Bool)}
        (rule_of p.status approval_pending)
        (some (permission, needs_reason))
    × (grants permission ≡ true)
    × (row_of 1 submitted.rows
        ≡ some (record p { status = approval_pending; version = p.version + 1 }))
transition-legal_example =
    transition-legal (some 7) grants views 1 (to approval_pending) (version 1) start submits

abbrev pending : ProjectRow
pending = record plan { status = approval_pending; version = 2 }

pending_found : row_of 1 submitted.rows ≡ some pending
unfolding find raise_if strip strip_left strip_right row_of holds_anything blocked_by_holdings
    joined incomplete submitted_by problems_of evaluate set_status write expected_version
    raise_first locked_row transition approval_outcome abandon
pending_found = refl

none_later : any (is_submission 1) [] ≡ false
unfolding any
none_later = refl

transition-four_eyes_example : ◌≢◌ {A = Option ℕ} (some 8) (some 7)
transition-four_eyes_example =
    transition-four_eyes (some 7) (some 8) grants grants views views 1 (to approval_pending)
      (to active) (version 1) (version 2) start submitted [] pending refl submits refl none_later
      pending_found refl refl activates

abbrev closed_row : ProjectRow
closed_row = record plan { status = completed; version = 4 }

abbrev working : ProjectRow
working = record plan { status = active; version = 3 }

working_found : row_of 1 activated.rows ≡ some working
unfolding find raise_if strip strip_left strip_right row_of holds_anything blocked_by_holdings
    joined incomplete submitted_by problems_of evaluate set_status write expected_version
    raise_first locked_row transition approval_outcome abandon
working_found = refl

finished_found : row_of 1 finished.rows ≡ some closed_row
unfolding find raise_if strip strip_left strip_right row_of holds_anything blocked_by_holdings
    joined incomplete submitted_by problems_of evaluate set_status write expected_version
    raise_first locked_row transition approval_outcome abandon
finished_found = refl

Step-closing_example :
    Free (views.blocked_of 1) (pos 0)
    ⊎ ((false ≡ true) × (grants override_permission ≡ true) × (20 ≤ len (reason_of (to completed))))
Step-closing_example =
    Step-closing views 1 working closed_row
      (by_transition (some 8) grants 1 (to completed) (version 3) finishes) tt working_found refl
      finished_found refl

abbrev other : ProjectRow
other = record plan { id = 2 }

abbrev with_other : Projects
with_other = record { rows = closed_row ∷ other ∷ []; events = [] }

abbrev other_submitted : Projects
other_submitted =
    projects_of (transition (some 7) grants views 2 (to approval_pending) (version 1) with_other)

other_submits :
    transition (some 7) grants views 2 (to approval_pending) (version 1) with_other
    ≡ ok other_submitted
unfolding find raise_if strip strip_left strip_right row_of holds_anything blocked_by_holdings
    joined incomplete submitted_by problems_of evaluate set_status write expected_version
    raise_first locked_row transition approval_outcome abandon
other_submits = refl

closed_found : row_of 1 with_other.rows ≡ some closed_row
unfolding find raise_if strip strip_left strip_right row_of holds_anything blocked_by_holdings
    joined incomplete submitted_by problems_of evaluate set_status write expected_version
    raise_first locked_row transition approval_outcome abandon
closed_found = refl

closed-stays_example : row_of 1 other_submitted.rows ≡ some closed_row
closed-stays_example =
    closed-stays views 1 closed_row
      (one_more (by_transition (some 7) grants 2 (to approval_pending) (version 1) other_submits)
        none_left)
      closed_found refl
