-- ===== src/Approvals/Tests/Ending.antt =====
-- The approval of a request that a manager rejects.
use xlr8_flo.Common.{ℕ, ◌≡◌, refl, none, some, [], ◌∷◌, ◌++◌, find, any, all}
use xlr8_flo.Common.Equality.{String_eq}
use xlr8_flo.Common.Problems.{ok, raise_if}
use xlr8_flo.Money.{currency_exponent, exponent_of, is_code, is_upper, is_lower}
use xlr8_flo.Money.Currencies.{iso4217}
use xlr8_flo.Approvals.Values.{span_digits, number, parse_amount, from_iso}
use xlr8_flo.Approvals.Conditions.{get, compare_values, compare, visit_leaf, visit, evaluate}
use xlr8_flo.Approvals.Grammar.{each, limits, read_items, validate, parse_condition}
use xlr8_flo.Approvals.Graph.{
  step, completed, node_of, edges_from, first_default, mark_last, try_edges, choose, pass,
  walk_from, walk,
}
use xlr8_flo.Approvals.Tables.{
  Status, done, Db, instance_of, task_of, version_of, save, close_task, latest,
}
use xlr8_flo.Approvals.Members.{
  separation, keep, decided_elsewhere, rows_of, adapter_for, eligible_approvers, current_members,
  with_delegates, effective_members,
}
use xlr8_flo.Approvals.Engine.{
  published_of, resolve_version, open_task, finish_approved, enter, fresh_route, start_approval,
  next_walk, advance_task, advance,
}
use xlr8_flo.Approvals.Steps.{update_step}
use xlr8_flo.Approvals.Evidence.{rows, first_of, distinct, step_complete}
use xlr8_flo.Approvals.Decisions.{
  check_assignment, act, delegates_of, allowed_members, record_decision, decide_task, decide,
}
use xlr8_flo.Approvals.Writes.{DecisionWrite}
use xlr8_flo.Approvals.Tests.Route.{first_route}
use xlr8_flo.Approvals.Tables.{Outcome, reject, RejectMode}
use xlr8_flo.Approvals.Members.{adapter_for}
use xlr8_flo.Approvals.Writes.{DecisionWrite}
use xlr8_flo.Approvals.Decisions.{context_of, finish, complete_step}
use xlr8_flo.Approvals.Tables.{cancel_tasks}
use xlr8_flo.Approvals.Decisions.Ending.{Over, decide-Over}
use xlr8_flo.Approvals.Tests.Decisions.{services, begun, approves, waiting, asked, approval_by}

abbrev rejects : DecisionWrite
rejects = record approves {
  outcome = reject;
  reject_mode = some RejectMode.permanent;
  comment = some "No budget.";
}

abbrev turned_down : Db ℕ
turned_down = record begun {
  instances =
      record waiting {
        status = Status.rejected;
        current_node_id = none;
        route =
            first_route
            ++ step (record {
              node_id = "manager";
              state = completed;
              decided_by = 2 ∷ [];
              source_instance_id = none;
            })
              ∷ [];
        finished_at = some 200;
      }
      ∷ [];
  tasks =
      record asked { status = done; outcome = some Status.rejected; completed_at = some 200 } ∷ [];
  decisions =
      record (approval_by 30 2 200) {
        outcome = reject;
        reject_mode = some RejectMode.permanent;
        comment = some "No budget.";
      }
      ∷ [];
  documents = 8;
}

rejection : decide services 200 30 21 20 2 rejects begun ≡ ok turned_down
unfolding start_approval latest fresh_route resolve_version published_of enter open_task
    finish_approved save current_members eligible_approvers separation adapter_for keep
    decided_elsewhere decide delegates_of task_of instance_of version_of decide_task allowed_members
    effective_members with_delegates rows_of check_assignment record_decision act step_complete rows
    first_of distinct advance advance_task next_walk update_step close_task walk walk_from pass
    choose try_edges edges_from mark_last node_of find first_default parse_condition limits validate
    each read_items evaluate visit visit_leaf get compare compare_values parse_amount from_iso
    span_digits number raise_if any currency_exponent exponent_of is_code is_upper is_lower iso4217
    all finish complete_step cancel_tasks
rejection = refl

finds_asked : task_of 20 begun ≡ some asked
unfolding task_of find
finds_asked = refl

finds_waiting : instance_of 10 begun ≡ some waiting
unfolding instance_of find
finds_waiting = refl

decide-Over_example :
    Over 10 9
      (adapter_for services "requisition")
      Outcome.rejected
      (context_of 30 2 rejects)
      turned_down
decide-Over_example =
    decide-Over services 200 30 21 20 2 rejects begun asked waiting Outcome.rejected finds_asked
      finds_waiting refl rejection
