-- ===== src/Approvals/Tests/Decisions.antt =====
-- The approval of a request by two managers at work.
use xlr8_flo.Common.{
  ℕ, ◌≡◌, ◌≢◌, refl, ap, inl, inr, ◌+◌, true, false, none, some, [], ◌∷◌, ◌++◌, arith, find, any,
  all,
}
use xlr8_flo.Common.Equality.{String_eq}
use xlr8_flo.Common.Problems.{conflict, ok, err, raise_if}
use xlr8_flo.Money.{currency_exponent, exponent_of, is_code, is_upper, is_lower}
use xlr8_flo.Money.Currencies.{iso4217}
use xlr8_flo.Approvals.Values.{span_digits, number, parse_amount, from_iso}
use xlr8_flo.Approvals.Conditions.{get, compare_values, compare, visit_leaf, visit, evaluate}
use xlr8_flo.Approvals.Grammar.{each, limits, read_items, validate, parse_condition}
use xlr8_flo.Approvals.Graph.{
  permission, quorum, step, open_step, completed, node_of, edges_from, first_default, mark_last,
  try_edges, choose, pass, walk_from, walk,
}
use xlr8_flo.Approvals.Tables.{
  Status, Instance, Task, opened, done, Decision, approve, member, Target, ScopeType, org, bu,
  project, published, Adapter, Services, Db, instance_of, task_of, version_of, save, close_task,
  latest,
}
use xlr8_flo.Approvals.Members.{
  separation, keep, decided_elsewhere, rows_of, adapter_for, eligible_approvers, current_members,
  with_delegates, effective_members,
}
use xlr8_flo.Approvals.Engine.{
  published_of, resolve_version, open_task, finish_approved, enter, fresh_route, start_approval,
  next_walk, advance_task, advance,
}
use xlr8_flo.Approvals.Steps.{update_step}
use xlr8_flo.Approvals.Evidence.{user_of, rows, first_of, distinct, step_complete}
use xlr8_flo.Approvals.Decisions.{
  check_assignment, act, delegates_of, allowed_members, record_decision, decide_task, decide,
}
use xlr8_flo.Approvals.Writes.{DecisionWrite}
use xlr8_flo.Approvals.Decisions.Once.{once, decide-once}
use xlr8_flo.Approvals.Decisions.Separate.{decide-separates}
use xlr8_flo.Approvals.Consistent.{Consistent}
use xlr8_flo.Approvals.Consistent.Commands.{Fresh}
use xlr8_flo.Approvals.Consistent.Reached.{started, decided, Steps, no_more, next, Steps-Consistent}
use xlr8_flo.Approvals.Tests.Conditions.{same_case, request}
use xlr8_flo.Approvals.Tests.Route.{graph, first_route}

-- The documents are all at one version.
abbrev requests : Adapter ℕ
requests = record {
  approve_permission = "requisition.approve";
  accepts_project_assignment = false;
  snapshot = λ id version. ok (record {
    version = version;
    requester_id = 1;
    target = record { scope_type = org; scope_id = 0 };
    attributes = request;
    material = ("amount", "1250.0000") ∷ [];
  });
  on_outcome = λ id outcome context version. ok (version + 1);
  prepare_approval = none;
}

-- The requester could approve, but for the separation of duties.
abbrev pub services : Services ℕ
services = record {
  casefold = same_case;
  digest = λ material. "digest";
  adapter = λ type. some requests;
  holders = λ permission target. 1 ∷ 2 ∷ 3 ∷ [];
  role_holders = λ code target. [];
  org_separation = none;
  unit_separation = λ id. ok true;
  business_unit = λ target. some 4;
}

abbrev at_first : Db ℕ
at_first = record {
  instances = [];
  tasks = [];
  decisions = [];
  delegations = [];
  definitions =
      record {
        id = 5;
        document_type = "requisition";
        scope_type = org;
        scope_id = 0;
        retired_at = none;
      }
      ∷ [];
  versions = record { id = 6; definition_id = 5; status = published; graph = graph } ∷ [];
  documents = 7;
}

abbrev pub approves : DecisionWrite
approves = record {
  outcome = approve;
  reject_mode = none;
  comment = none;
  document_version = 7;
  assign_project_id = none;
  substitutions = none;
}

abbrev pub waiting : Instance
waiting = record {
  id = 10;
  document_type = "requisition";
  document_id = 9;
  workflow_version_id = 6;
  document_version = 7;
  material_digest = "digest";
  approved_material_digest = none;
  approved_version = none;
  requester_id = 1;
  status = Status.running;
  current_node_id = some "manager";
  route =
      first_route
      ++ step (record {
        node_id = "manager";
        state = open_step;
        decided_by = [];
        source_instance_id = none;
      })
        ∷ [];
  started_at = 100;
  finished_at = none;
}

abbrev pub asked : Task
asked = record {
  id = 20;
  instance_id = 10;
  node_id = "manager";
  name = "manager";
  approver_rule = permission;
  mode = quorum 2;
  allow_repeat = false;
  status = opened;
  outcome = none;
  created_at = 100;
  due_at = some 259300;
  completed_at = none;
  escalated_at = none;
  escalation_rule = none;
}

abbrev pub begun : Db ℕ
begun = record at_first { instances = waiting ∷ []; tasks = asked ∷ [] }

abbrev pub approval_by : ℕ → ℕ → ℕ → Decision
approval_by id actor now = record {
  id = id;
  instance_id = 10;
  task_id = some 20;
  actor_id = actor;
  on_behalf_of = none;
  authority = member;
  outcome = approve;
  reject_mode = none;
  comment = none;
  document_version = 7;
  members_at_decision = 2 ∷ 3 ∷ [];
  decided_at = now;
}

abbrev half : Db ℕ
half = record begun { decisions = approval_by 30 2 200 ∷ [] }

abbrev pub settled : Db ℕ
settled = record half {
  instances =
      record waiting {
        status = Status.approved;
        current_node_id = none;
        route =
            first_route
            ++ step (record {
              node_id = "manager";
              state = completed;
              decided_by = 3 ∷ 2 ∷ 3 ∷ 2 ∷ 3 ∷ [];
              source_instance_id = none;
            })
              ∷ [];
        finished_at = some 300;
        approved_version = some 7;
        approved_material_digest = some "digest";
      }
      ∷ [];
  tasks =
      record asked { status = done; outcome = some Status.approved; completed_at = some 300 } ∷ [];
  decisions = approval_by 30 2 200 ∷ approval_by 31 3 300 ∷ [];
  documents = 8;
}

-- The approval begins, a manager approves, cannot approve again, and another ends it.
runs :
    (start_approval services 100 10 20 "requisition" 9 none at_first ≡ ok begun)
    × (decide services 200 30 21 20 2 approves begun ≡ ok half)
    × (decide services 250 31 21 20 2 approves half ≡ err (conflict "already_decided"))
    × (decide services 300 31 21 20 3 approves half ≡ ok settled)
unfolding start_approval latest fresh_route resolve_version published_of enter open_task
    finish_approved save current_members eligible_approvers separation adapter_for keep
    decided_elsewhere decide delegates_of task_of instance_of version_of decide_task allowed_members
    effective_members with_delegates rows_of check_assignment record_decision act step_complete rows
    first_of distinct advance advance_task next_walk update_step close_task walk walk_from pass
    choose try_edges edges_from mark_last node_of find first_default parse_condition limits validate
    each read_items evaluate visit visit_leaf get compare compare_values parse_amount from_iso
    span_digits number raise_if any currency_exponent exponent_of is_code is_upper is_lower iso4217
    all
runs = (refl, refl, refl, refl)

once_half : once half.decisions ≡ true
unfolding once all
once_half = refl

decide-once_example : once settled.decisions ≡ true
decide-once_example = decide-once services 300 31 21 20 3 approves half once_half runs.3

separated : (target : Target) → separation services target ≡ ok true
unfolding separation
separated target = by_scope target.scope_type target.scope_id
  where
    by_scope :
        (s : ScopeType) (id : ℕ)
        → separation services (record { scope_type = s; scope_id = id }) ≡ ok true
    by_scope org id = refl
    by_scope bu id = refl
    by_scope project id = refl

finds_task : task_of 20 half ≡ some asked
unfolding task_of find
finds_task = refl

finds_instance : instance_of 10 half ≡ some waiting
unfolding instance_of find
finds_instance = refl

decide-separates_example :
    (d : Decision) × (settled.decisions ≡ half.decisions ++ d ∷ [])
    × (d.actor_id ≡ 3)
    × (d.actor_id ≢ 1)
    × (user_of d ≢ 1)
decide-separates_example =
    decide-separates services separated 300 31 21 20 3 approves half asked waiting finds_task
      finds_instance runs.3

unused_task : Fresh 21 begun
unused_task u (inl h) e = absurd (omega (arith, ap (λ (x : Task). x.id) h, e))
unused_task u (inr h) e = elim h [ ]

both_approve : Steps services at_first settled
both_approve =
    next (started 100 10 20 "requisition" 9 none (λ i h. elim h [ ]) (λ t h. elim h [ ]) runs.0) (
      next (decided 200 30 21 20 2 approves unused_task runs.1)
        (next (decided 300 31 21 20 3 approves unused_task runs.3) no_more))

Steps-Consistent_example : Consistent settled.instances settled.tasks
Steps-Consistent_example = Steps-Consistent services at_first settled refl refl both_approve
