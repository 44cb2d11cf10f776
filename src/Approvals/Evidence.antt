-- ===== src/Approvals/Evidence.antt =====
-- What the decisions on a task amount to: `step_complete` of
-- apps/api/src/flo/modules/approvals/engine.py.
pub mod Distinct
pub mod Threshold
use xlr8_flo.Common.{
  ℕ, ◌+◌, ◌*◌, String, Bool, true, false, not, ◌&&◌, ◌||◌, Option, none, some, List, [], ◌∷◌, ◌++◌,
  map, ◌==◌, ltb, leb, if◌then◌else◌, any, all, find,
}
use xlr8_flo.Common.Equality.{◌===◌, String_eq}
use xlr8_flo.Common.Problems.{
  Result, Problem, not_found, conflict, validation_failed, runtime_error, integrity_error, ok, err,
  ◌>>=◌, ◌>>◌, raise_if,
}
use xlr8_flo.Approvals.Graph.{
  Approvers, Mode, any_one, everyone, quorum, Node, Route, branch, step, open_step, completed,
  carried, Walk, walk, NodeKind, start, is_end, node_of,
}
use xlr8_flo.Approvals.Tables.{
  running, approved, is_running, is_returned, Instance, Task, opened, is_open, Decision, approve,
  reject, give_back, is_deciding, Outcome, Target, org, bu, project, ScopeType, WorkflowDefinition,
  WorkflowVersion, published, VersionStatus, Snapshot, OutcomeContext, Services, Db, instance_of,
  task_of, version_of, save, close_task, concerns, latest,
}
use xlr8_flo.Approvals.Members.{has, adapter_for, current_members}

-- What `step_complete` answers.
pub data StepResult : Type 0 where
  incomplete complete rejected_step returned_step : StepResult

-- Evidence of a decision: whose it is (`COALESCE(on_behalf_of,actor_id)`), and who made it.
abbrev pub user_of : Decision → ℕ
user_of d = elim d.on_behalf_of [ none ↦ d.actor_id | some u ↦ u ]

abbrev pub on_task : ℕ → Decision → Bool
on_task id d = elim d.task_id [ none ↦ false | some t ↦ t == id ]

unfoldable pub rows : (Decision → Bool) → List Decision → List Decision
rows p [] = []
rows p (d ∷ ds) = let rest = rows p ds in if p d then d ∷ rest else rest

abbrev pub is_terminal : Decision → Bool
is_terminal d = elim d.outcome [ reject ↦ true | give_back ↦ true | _ ↦ false ]

abbrev pub is_approval : Decision → Bool
is_approval d = elim d.outcome [ approve ↦ true | _ ↦ false ]

abbrev pub earlier : Decision → Decision → Bool
earlier a b = ltb a.decided_at b.decided_at || a.decided_at == b.decided_at && ltb a.id b.id

abbrev pub earlier_of : Decision → Option Decision → Decision
earlier_of d none = d
earlier_of d (some e) = if earlier e d then e else d

-- The first in the order of (decided_at, id).
unfoldable pub first_of : List Decision → Option Decision
first_of [] = none
first_of (d ∷ ds) = some (earlier_of d (first_of ds))

-- The number of different elements.
unfoldable pub distinct : List ℕ → ℕ
distinct [] = 0
distinct (x ∷ xs) = let rest = distinct xs in if has x xs then rest else rest + 1

abbrev pub is_empty : List ℕ → Bool
is_empty [] = true
is_empty (x ∷ xs) = false

abbrev pub enough : Mode → List ℕ → List ℕ → Bool
enough any_one members who = not (is_empty who)
enough everyone members who = not (is_empty members) && all (λ m. has m who) members
enough (quorum q) members who = leb q (distinct who)

abbrev pub ended_by : Decision → StepResult
ended_by d = elim d.outcome [ reject ↦ rejected_step | _ ↦ returned_step ]

abbrev pub step_result : Option Decision → Bool → StepResult
step_result (some d) threshold = ended_by d
step_result none true = complete
step_result none false = incomplete

unfoldable pub step_complete : Task → List Decision → List ℕ → StepResult
step_complete t decisions members =
    let evidence = rows (λ d. has (user_of d) members && on_task t.id d) decisions in
    step_result (first_of (rows is_terminal evidence))
      (enough t.mode members (map user_of (rows is_approval evidence)))

abbrev pub is_complete : StepResult → Bool
is_complete complete = true
is_complete _ = false
