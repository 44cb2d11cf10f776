-- ===== src/Approvals/Engine.antt =====
-- The execution of approvals: apps/api/src/flo/modules/approvals/engine.py. The commands return the
-- tables; the read view of `get_instance` is not modelled.
use xlr8_flo.Common.{
  ℕ, String, Bool, true, false, not, ◌&&◌, Option, none, some, List, [], ◌∷◌, ◌++◌, ◌==◌,
  if◌then◌else◌, any, find,
}
use xlr8_flo.Common.Equality.{◌===◌, String_eq}
use xlr8_flo.Common.Problems.{
  Result, Problem, not_found, conflict, validation_failed, runtime_error, integrity_error, ok, err,
  ◌>>=◌, ◌>>◌, raise_if,
}
use xlr8_flo.Approvals.Graph.{Node, Route, Walk, walk, NodeKind, start, is_end, node_of}
use xlr8_flo.Approvals.Tables.{
  running, approved, is_running, is_returned, Instance, Task, is_open, Decision, Outcome, Target,
  org, bu, project, ScopeType, WorkflowDefinition, WorkflowVersion, published, VersionStatus,
  Snapshot, OutcomeContext, Services, Db, instance_of, task_of, version_of, save, close_task,
  concerns, latest,
}
use xlr8_flo.Approvals.Members.{adapter_for, current_members}
use xlr8_flo.Approvals.Evidence.{is_empty}
use xlr8_flo.Approvals.Steps.{
  carried_over, update_step, deciders_of, last_of, tasks_where, was_returned, new_task, opened_at,
}

abbrev pub found_or {ℓ} : {A : Type ℓ} → Problem → Option A → Result A
found_or e none = err e
found_or e (some a) = ok a

-- The walk of a published graph; it is acyclic, so that the passes suffice.
abbrev pub walked : Option (Result Walk) → Result Walk
walked none = err runtime_error
walked (some r) = r

abbrev pub is_live : String → WorkflowDefinition → Bool
is_live document_type d =
    d.document_type === document_type && elim d.retired_at [ none ↦ true | some at ↦ false ]

abbrev pub bound_to : ScopeType → ℕ → WorkflowDefinition → Bool
bound_to bu id d = elim d.scope_type [ bu ↦ d.scope_id == id | _ ↦ false ]
bound_to org id d = elim d.scope_type [ org ↦ true | _ ↦ false ]
bound_to project id d = false

abbrev pub is_published : VersionStatus → Bool
is_published published = true
is_published _ = false

-- The published version of a definition that satisfies a test.
unfoldable pub published_of :
    (WorkflowDefinition → Bool)
    → List WorkflowDefinition
    → List WorkflowVersion
    → Option WorkflowVersion
unfolding find any
published_of p definitions versions =
    find
      (λ (v : WorkflowVersion).
        is_published v.status
        && any (λ (d : WorkflowDefinition). d.id == v.definition_id && p d) definitions)
      versions

abbrev pub or_else {ℓ} : {A : Type ℓ} → Option A → Option A → Option A
or_else none b = b
or_else (some a) b = some a

abbrev pub is_start : NodeKind → Bool
is_start start = true
is_start _ = false

module _ {D : Type 0} (services : Services D) where
  -- The instance after its approval.
  abbrev pub approved_now : ℕ → Instance → Snapshot → Instance
  approved_now now i snapshot = record i {
    status = approved;
    current_node_id = none;
    finished_at = some now;
    approved_version = some snapshot.version;
    approved_material_digest = some (services.digest snapshot.material);
  }

  unfoldable pub resolve_version : String → Option ℕ → Db D → Option WorkflowVersion
  resolve_version document_type unit db =
      or_else
        (elim unit [
          | none ↦ none
          | some id ↦
              published_of (λ d. is_live document_type d && bound_to bu id d) db.definitions
                db.versions
        ])
        (published_of (λ d. is_live document_type d && bound_to org 0 d) db.definitions db.versions)

  abbrev pub unit_of : Target → Option ℕ
  unit_of target = elim target.scope_type [
    | bu ↦ some target.scope_id
    | project ↦ services.business_unit target
    | _ ↦ none
  ]

  -- `_open` and the save that follows it
  unfoldable pub open_task : ℕ → ℕ → Instance → Node → Snapshot → Db D → Result (Db D)
  unfolding any
  open_task now task_id i n snapshot db = do
    members ← current_members services i n.id n.allow_repeat n.approvers snapshot
    raise_if (is_empty members) (conflict "no_eligible_approver")
    raise_if (any (λ (t : Task). t.instance_id == i.id && t.node_id === n.id) db.tasks)
        (integrity_error "approval_task_instance_id_node_id_key")
    ok (save (opened_at i n) (record db { tasks = db.tasks ++ new_task now task_id i n ∷ [] }))

  -- `_outcome`
  unfoldable pub finish_approved : ℕ → Instance → OutcomeContext → Db D → Result (Db D)
  finish_approved now i context db = do
    adapter ← adapter_for services i.document_type
    raise_if
        (elim context.assign_project_id [
          | none ↦ false
          | some p ↦ not adapter.accepts_project_assignment
        ])
        (validation_failed "assign_project_id")
    snapshot ← adapter.snapshot i.document_id db.documents
    documents ← adapter.on_outcome i.document_id Outcome.approved context db.documents
    ok (record (save (approved_now now i snapshot) db) { documents = documents })

  -- The node that a walk has reached: it ends the approval, or a task is opened.
  unfoldable pub enter : ℕ → ℕ → Instance → Node → Snapshot → OutcomeContext → Db D → Result (Db D)
  enter now task_id i n snapshot context db =
      if is_end n.kind
      then finish_approved now i context db
      else open_task now task_id i n snapshot db

  -- The rest of the checks of `start` when an approval resumes, with the node and the route.
  unfoldable pub resume :
      Option Instance → ℕ → Snapshot → Db D → Result (WorkflowVersion × Node × Route)
  resume none resume_from snapshot db = err (conflict "cannot_resume")
  resume (some prior) resume_from snapshot db = do
    raise_if (not (prior.id == resume_from && is_returned prior.status)) (conflict "cannot_resume")
    raise_if (not (prior.material_digest === services.digest snapshot.material))
        (conflict "cannot_resume")
    version ← found_or not_found (version_of prior.workflow_version_id db)
    task ←
        found_or (conflict "cannot_resume")
          (last_of (tasks_where (λ t. t.instance_id == resume_from && was_returned t) db.tasks))
    n ← found_or runtime_error (node_of task.node_id version.graph.nodes)
    ok (version, n, carried_over n.id resume_from prior.route)

  unfoldable pub fresh_route : String → Snapshot → Db D → Result (WorkflowVersion × Node × Route)
  unfolding find
  fresh_route document_type snapshot db = do
    version ←
        found_or (conflict "no_workflow")
          (resolve_version document_type (unit_of snapshot.target) db)
    first ← found_or runtime_error (find (λ (n : Node). is_start n.kind) version.graph.nodes)
    w ← walked (walk services.casefold version.graph snapshot.attributes first.id [])
    ok (version, w.node, w.route)

  abbrev pub is_running_one : Option Instance → Bool
  is_running_one none = false
  is_running_one (some i) = is_running i.status

  abbrev pub route_for :
      Option ℕ
      → Option Instance
      → String
      → Snapshot
      → Db D
      → Result (WorkflowVersion × Node × Route)
  route_for none prior document_type snapshot db = fresh_route document_type snapshot db
  route_for (some resume_from) prior document_type snapshot db =
      resume prior resume_from snapshot db

  abbrev pub new_instance : ℕ → ℕ → String → ℕ → WorkflowVersion → Route → Snapshot → Instance
  new_instance now instance_id document_type document_id version route snapshot = record {
    id = instance_id;
    document_type = document_type;
    document_id = document_id;
    workflow_version_id = version.id;
    document_version = snapshot.version;
    material_digest = services.digest snapshot.material;
    approved_material_digest = none;
    approved_version = none;
    requester_id = snapshot.requester_id;
    status = running;
    current_node_id = none;
    route = route;
    started_at = now;
    finished_at = none;
  }

  -- `start`, with the numbers of the new instance and of its first task.
  unfoldable pub start_approval : ℕ → ℕ → ℕ → String → ℕ → Option ℕ → Db D → Result (Db D)
  unfolding any
  start_approval now instance_id task_id document_type document_id resume_from db = do
    let prior = latest (concerns document_type document_id) db.instances
    raise_if (is_running_one prior) (conflict "approval_in_progress")
    adapter ← adapter_for services document_type
    snapshot ← adapter.snapshot document_id db.documents
    (version, n, route) ← route_for resume_from prior document_type snapshot db
    raise_if
        (any (λ (i : Instance). concerns document_type document_id i && is_running i.status)
          db.instances)
        (conflict "approval_in_progress")
    let i = new_instance now instance_id document_type document_id version route snapshot
    let context : OutcomeContext = record {
      actor_id = snapshot.requester_id;
      decision_id = none;
      assign_project_id = none;
      reject_mode = none;
    }
    enter now task_id i n snapshot context (record db { instances = db.instances ++ i ∷ [] })

  -- The walk from a completed task, with the step marked in the route.
  unfoldable pub next_walk :
      WorkflowVersion → Snapshot → Instance → Task → OutcomeContext → List Decision → Result Walk
  next_walk version snapshot i t context decisions = walked (
      walk services.casefold version.graph snapshot.attributes t.node_id
        (update_step t.node_id (λ old. deciders_of context.actor_id t.id decisions) i.route))

  unfoldable pub advance_task :
      ℕ → ℕ → Instance → Task → OutcomeContext → List Decision → Db D → Result (Db D)
  advance_task now new_task_id i t context decisions db = do
    raise_if (not (is_running i.status && is_open t.status)) (conflict "task_closed")
    adapter ← adapter_for services i.document_type
    snapshot ← adapter.snapshot i.document_id db.documents
    version ← found_or not_found (version_of i.workflow_version_id db)
    w ← next_walk version snapshot i t context decisions
    enter now new_task_id (record i { route = w.route }) w.node snapshot context
        (close_task now t.id approved db)

  -- `advance`: the task is complete, and the walk goes on from its node.
  unfoldable pub advance : ℕ → ℕ → ℕ → ℕ → OutcomeContext → List Decision → Db D → Result (Db D)
  advance now new_task_id instance_id task_id context decisions db = do
    i ← found_or not_found (instance_of instance_id db)
    t ← found_or not_found (task_of task_id db)
    raise_if (not (t.instance_id == instance_id)) not_found
    advance_task now new_task_id i t context decisions db
