-- ===== src/Approvals/Tables.antt =====
-- The tables of the approvals module for one organization, and what it asks of the document modules
-- and of the directory of identities: apps/api/src/flo/modules/approvals (engine.py, decisions.py,
-- delegation.py, schemas.py). A list in the place of a set of identities keeps no order.
use xlr8_flo.Common.{
  ℕ, String, Bool, true, false, ◌&&◌, ◌||◌, Option, none, some, List, [], ◌∷◌, map, ◌==◌, ltb,
  if◌then◌else◌, find,
}
use xlr8_flo.Common.Equality.{◌===◌, String_eq, ℕ_eq, Option_eq}
use xlr8_flo.Common.Problems.{Result}
use xlr8_flo.Approvals.Conditions.{Attributes}
use xlr8_flo.Approvals.Graph.{Approvers, Mode, WorkflowGraph, Route}

pub data Status : Type 0 where
  running approved rejected returned withdrawn superseded : Status

abbrev pub is_running : Status → Bool
is_running running = true
is_running _ = false

abbrev pub is_returned : Status → Bool
is_returned returned = true
is_returned _ = false

abbrev pub is_approved : Status → Bool
is_approved approved = true
is_approved _ = false

-- A row of `approval_instance`.
pub record Instance : Type 0 where
  pub id : ℕ
  pub document_type : String
  pub document_id : ℕ
  pub workflow_version_id : ℕ
  pub document_version : ℕ
  pub material_digest : String
  pub approved_material_digest : Option String
  pub approved_version : Option ℕ
  pub requester_id : ℕ
  pub status : Status
  pub current_node_id : Option String
  pub route : Route
  pub started_at : ℕ
  pub finished_at : Option ℕ

pub data TaskStatus : Type 0 where
  opened done cancelled : TaskStatus

abbrev pub is_open : TaskStatus → Bool
is_open opened = true
is_open _ = false

-- A row of `approval_task`, in the order of creation.
pub record Task : Type 0 where
  pub id : ℕ
  pub instance_id : ℕ
  pub node_id : String
  pub name : String
  pub approver_rule : Approvers
  pub mode : Mode
  pub allow_repeat : Bool
  pub status : TaskStatus
  pub outcome : Option Status
  pub created_at : ℕ
  pub due_at : Option ℕ
  pub completed_at : Option ℕ
  pub escalated_at : Option ℕ
  pub escalation_rule : Option (ℕ × Approvers)

pub data DecisionOutcome : Type 0 where
  approve reject give_back comment withdraw : DecisionOutcome

-- outcome IN ('approve','reject','return')
abbrev pub is_deciding : DecisionOutcome → Bool
is_deciding approve = true
is_deciding reject = true
is_deciding give_back = true
is_deciding _ = false

pub data Authority : Type 0 where
  member delegate admin requester : Authority

pub data RejectMode : Type 0 where
  return_to_draft permanent : RejectMode

-- A row of `approval_decision`; `members_at_decision` keeps the identities, not their addresses.
pub record Decision : Type 0 where
  pub id : ℕ
  pub instance_id : ℕ
  pub task_id : Option ℕ
  pub actor_id : ℕ
  pub on_behalf_of : Option ℕ
  pub authority : Authority
  pub outcome : DecisionOutcome
  pub reject_mode : Option RejectMode
  pub comment : Option String
  pub document_version : ℕ
  pub members_at_decision : List ℕ
  pub decided_at : ℕ

-- A row of `approval_delegation`, in the order of creation.
pub record Delegation : Type 0 where
  pub id : ℕ
  pub delegator_id : ℕ
  pub delegate_id : ℕ
  pub starts_at : ℕ
  pub ends_at : ℕ
  pub revoked_at : Option ℕ
  pub document_types : Option (List String)

pub data ScopeType : Type 0 where
  org bu project : ScopeType

-- AuthorizationTarget
pub record Target : Type 0 where
  pub scope_type : ScopeType
  pub scope_id : ℕ

pub record WorkflowDefinition : Type 0 where
  pub id : ℕ
  pub document_type : String
  pub scope_type : ScopeType
  pub scope_id : ℕ
  pub retired_at : Option ℕ

pub data VersionStatus : Type 0 where
  draft published replaced : VersionStatus

pub record WorkflowVersion : Type 0 where
  pub id : ℕ
  pub definition_id : ℕ
  pub status : VersionStatus
  pub graph : WorkflowGraph

-- DocumentSnapshot
pub record Snapshot : Type 0 where
  pub version : ℕ
  pub requester_id : ℕ
  pub target : Target
  pub attributes : Attributes
  pub material : List (String × String)

pub data Outcome : Type 0 where
  approved rejected returned withdrawn : Outcome

-- OutcomeContext; `permitted` asks the directory about the actor.
pub record OutcomeContext : Type 0 where
  pub actor_id : ℕ
  pub decision_id : Option ℕ
  pub assign_project_id : Option ℕ
  pub reject_mode : Option RejectMode

-- DocumentAdapter, on the documents `D` of its module.
pub record Adapter (D : Type 0) : Type 0 where
  pub approve_permission : String
  pub accepts_project_assignment : Bool
  pub snapshot : ℕ → D → Result Snapshot
  pub on_outcome : ℕ → Outcome → OutcomeContext → D → Result D
  pub prepare_approval : Option (ℕ → ℕ → List (String × String) → D → Result D)

-- What the engine asks of the registry of documents, of the directory of identities and of the
-- setting `approval.separation_of_duty` (the row of the organization, and what OrgService answers for a
-- unit), and two functions of Python's library: the digest of the material and `str.casefold`.
pub record Services (D : Type 0) : Type 0 where
  pub casefold : String → String
  pub digest : List (String × String) → String
  pub adapter : String → Option (Adapter D)
  pub holders : String → Target → List ℕ
  pub role_holders : String → Target → List ℕ
  pub org_separation : Option Bool
  pub unit_separation : ℕ → Result Bool
  pub business_unit : Target → Option ℕ

pub record Db (D : Type 0) : Type 0 where
  pub instances : List Instance
  pub tasks : List Task
  pub decisions : List Decision
  pub delegations : List Delegation
  pub definitions : List WorkflowDefinition
  pub versions : List WorkflowVersion
  pub documents : D

abbrev pub overwrite : Instance → Instance → Instance
overwrite i r =
    if r.id == i.id
    then record r {
      route = i.route;
      current_node_id = i.current_node_id;
      status = i.status;
      finished_at = i.finished_at;
      approved_material_digest = i.approved_material_digest;
      approved_version = i.approved_version;
    }
    else r

abbrev pub closed_if : ℕ → ℕ → Status → Task → Task
closed_if now id outcome t =
    if t.id == id
    then record t { status = done; outcome = some outcome; completed_at = some now }
    else t

abbrev pub cancelled_if : ℕ → ℕ → Task → Task
cancelled_if now instance_id t =
    if t.instance_id == instance_id && is_open t.status
    then record t { status = cancelled; completed_at = some now }
    else t

module _ {D : Type 0} where
  unfoldable pub instance_of : ℕ → Db D → Option Instance
  unfolding find
  instance_of id db = find (λ (i : Instance). i.id == id) db.instances

  unfoldable pub task_of : ℕ → Db D → Option Task
  unfolding find
  task_of id db = find (λ (t : Task). t.id == id) db.tasks

  unfoldable pub version_of : ℕ → Db D → Option WorkflowVersion
  unfolding find
  version_of id db = find (λ (v : WorkflowVersion). v.id == id) db.versions

  -- `_save`
  unfoldable pub save : Instance → Db D → Db D
  save i db = record db { instances = map (overwrite i) db.instances }

  -- UPDATE approval_task SET status='completed',outcome=…,completed_at=now()
  unfoldable pub close_task : ℕ → ℕ → Status → Db D → Db D
  close_task now id outcome db = record db { tasks = map (closed_if now id outcome) db.tasks }

  -- UPDATE approval_task SET status='cancelled',completed_at=now() WHERE … status='open'
  unfoldable pub cancel_tasks : ℕ → ℕ → Db D → Db D
  cancel_tasks now instance_id db = record db {
    tasks = map (cancelled_if now instance_id) db.tasks;
  }

abbrev pub concerns : String → ℕ → Instance → Bool
concerns document_type document_id i =
    i.document_type === document_type && i.document_id == document_id

-- ORDER BY started_at DESC,id DESC
abbrev pub later : Instance → Instance → Bool
later a b = ltb b.started_at a.started_at || a.started_at == b.started_at && ltb b.id a.id

abbrev pub later_of : Instance → Option Instance → Instance
later_of i none = i
later_of i (some j) = if later j i then j else i

-- The latest of the instances that satisfy a test.
unfoldable pub latest : (Instance → Bool) → List Instance → Option Instance
latest p [] = none
latest p (i ∷ is) = let rest = latest p is in if p i then some (later_of i rest) else rest
