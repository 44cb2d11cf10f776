-- ===== src/Approvals/Decisions.antt =====
-- Decisions and withdrawals: apps/api/src/flo/modules/approvals/decisions.py. The audit rows, the
-- mail about an outcome and the reads are not modelled.
pub mod Decided
pub mod Once
pub mod Separate
pub mod Ending
use xlr8_flo.Common.{
  ℕ, ◌+◌, String, Bool, true, false, not, ◌&&◌, ◌||◌, Option, none, some, List, [], ◌∷◌, ◌++◌, map,
  ◌==◌, ltb, if◌then◌else◌, any, find,
}
use xlr8_flo.Common.Equality.{◌===◌, String_eq}
use xlr8_flo.Common.Text.{strip, len, is_blank}
use xlr8_flo.Common.Problems.{
  Result, Problem, not_found, conflict, forbidden, validation_failed, runtime_error, ok, err, ◌>>=◌,
  ◌>>◌, raise_if,
}
use xlr8_flo.Approvals.Graph.{
  Node, Route, RouteEntry, branch, step, completed, walk, is_end, node_of,
}
use xlr8_flo.Approvals.Tables.{
  Status, Outcome, Instance, is_running, Task, is_open, Decision, Delegation, DecisionOutcome,
  approve, reject, give_back, comment, withdraw, is_deciding, Authority, member, delegate, admin,
  requester, RejectMode, Snapshot, OutcomeContext, Adapter, Services, Db, instance_of, task_of,
  version_of, save, close_task, cancel_tasks, concerns,
}
use xlr8_flo.Approvals.Members.{has, adapter_for, Members, stands_in_for, effective_members}
use xlr8_flo.Approvals.Engine.{found_or, walked, advance}
use xlr8_flo.Approvals.Evidence.{user_of, on_task, step_complete, is_complete}
use xlr8_flo.Approvals.Writes.{
  DecisionWrite, is_some, is_reject, is_approve, is_comment, is_withdraw, blank, trimmed, too_long,
  xor, validate_action,
}

-- The route at the end of an approval: the current step is completed, by the actor where a decision
-- ended it.
abbrev pub is_current : Option String → String → Bool
is_current none id = false
is_current (some c) id = id === c

unfoldable pub complete_step : Option String → List ℕ → Route → Route
complete_step current deciders [] = []
complete_step current deciders (branch b ∷ rest) = branch b ∷ complete_step current deciders rest
complete_step current deciders (step s ∷ rest) =
    (if is_current current s.node_id
      then step (record s { state = completed; decided_by = s.decided_by ++ deciders })
      else step s)
    ∷ complete_step current deciders rest

-- `outcome.value`
abbrev pub status_of : Outcome → Status
status_of Outcome.approved = Status.approved
status_of Outcome.rejected = Status.rejected
status_of Outcome.returned = Status.returned
status_of Outcome.withdrawn = Status.withdrawn

abbrev pub ending_deciders : Outcome → ℕ → List ℕ
ending_deciders Outcome.rejected actor_id = actor_id ∷ []
ending_deciders Outcome.returned actor_id = actor_id ∷ []
ending_deciders _ actor_id = []

abbrev pub ended : ℕ → Instance → Outcome → ℕ → Instance
ended now i outcome actor_id = record i {
  route = complete_step i.current_node_id (ending_deciders outcome actor_id) i.route;
  status = status_of outcome;
  current_node_id = none;
  finished_at = some now;
}

-- The rows that say that a user, or the principal, has decided on a task.
abbrev pub decided_by : ℕ → ℕ → ℕ → Decision → Bool
decided_by task_id actor_id principal d =
    on_task task_id d
    && (d.actor_id == actor_id
        || d.actor_id == principal
        || elim d.on_behalf_of [ none ↦ false | some u ↦ u == principal ])
    && is_deciding d.outcome

abbrev pub principal_of : Option ℕ → ℕ → ℕ
principal_of none actor_id = actor_id
principal_of (some user) actor_id = user

abbrev pub authority_of : Option ℕ → Authority
authority_of none = member
authority_of (some user) = delegate

-- `listed`: the members and those who stand in for them
unfoldable pub delegates_of : (ℕ → Bool) → List Delegation → List ℕ
delegates_of able [] = []
delegates_of able (d ∷ ds) =
    let rest = delegates_of able ds in
    if able d.delegate_id && not (has d.delegate_id rest) then d.delegate_id ∷ rest else rest

abbrev pub listed : Members → List ℕ
listed m = m.base ++ delegates_of m.able m.delegates

abbrev pub acting_for : Members → ℕ → Option ℕ
acting_for m actor_id = if has actor_id m.base then none else stands_in_for m actor_id

abbrev pub decision_row :
    ℕ → ℕ → ℕ → DecisionWrite → Instance → Task → Snapshot → Members → Decision
decision_row now decision_id actor_id body i t snapshot m = record {
  id = decision_id;
  instance_id = i.id;
  task_id = some t.id;
  actor_id = actor_id;
  on_behalf_of = acting_for m actor_id;
  authority = authority_of (acting_for m actor_id);
  outcome = body.outcome;
  reject_mode = body.reject_mode;
  comment = body.comment;
  document_version = snapshot.version;
  members_at_decision = listed m;
  decided_at = now;
}

abbrev pub context_of : ℕ → ℕ → DecisionWrite → OutcomeContext
context_of decision_id actor_id body = record {
  actor_id = actor_id;
  decision_id = some decision_id;
  assign_project_id = body.assign_project_id;
  reject_mode = body.reject_mode;
}

module _ {D : Type 0} (services : Services D) where
  -- `_end`
  unfoldable pub finish : ℕ → Instance → Outcome → OutcomeContext → Db D → Result (Db D)
  finish now i outcome context db = do
    adapter ← adapter_for services i.document_type
    documents ← adapter.on_outcome i.document_id outcome context db.documents
    ok (record (save (ended now i outcome context.actor_id) (cancel_tasks now i.id db)) {
      documents = documents;
    })

  -- A project may be assigned on the last step of a document that takes one.
  unfoldable pub check_assignment :
      DecisionWrite → Adapter D → Instance → Node → Snapshot → Db D → Result (Unit {0})
  check_assignment body adapter i n snapshot db = elim body.assign_project_id [
    | none ↦ ok tt
    | some p ↦ do
      version ← found_or not_found (version_of i.workflow_version_id db)
      w ← walked (walk services.casefold version.graph snapshot.attributes n.id [])
      raise_if (not (adapter.accepts_project_assignment && is_end w.node.kind))
          (validation_failed "assign_project_id")
      ok tt
  ]

  -- The adapter's hook for an approval; other decisions take no substitutions.
  abbrev pub no_substitutions : DecisionWrite → D → Result D
  no_substitutions body documents = do
    raise_if (is_some body.substitutions) (validation_failed "substitutions")
    ok documents

  abbrev pub substitutions_of : Option (List (String × String)) → List (String × String)
  substitutions_of none = []
  substitutions_of (some s) = s

  abbrev pub prepared :
      Bool
      → Option (ℕ → ℕ → List (String × String) → D → Result D)
      → DecisionWrite
      → ℕ
      → ℕ
      → D
      → Result D
  prepared true (some hook) body document_id actor_id documents =
      hook document_id actor_id (substitutions_of body.substitutions) documents
  prepared _ _ body document_id actor_id documents = no_substitutions body documents

  -- What a recorded decision brings about.
  unfoldable pub act :
      ℕ → ℕ → DecisionOutcome → Instance → Task → List ℕ → OutcomeContext → Db D → Result (Db D)
  act now new_task_id approve i t members context db =
      let evidence = db.decisions in
      let next = advance services now new_task_id i.id t.id context evidence db in
      if is_complete (step_complete t evidence members) then next else ok db
  act now new_task_id reject i t members context db =
      finish now i Outcome.rejected context (close_task now t.id Status.rejected db)
  act now new_task_id give_back i t members context db =
      finish now i Outcome.returned context (close_task now t.id Status.returned db)
  act now new_task_id _ i t members context db = ok db

  -- The members of the task, for the actor, or an error.
  unfoldable pub allowed_members :
      ℕ → ℕ → DecisionWrite → Instance → Task → Adapter D → Snapshot → Db D → Result Members
  unfolding any
  allowed_members now actor_id body i t adapter snapshot db = do
    raise_if (not (body.document_version == snapshot.version)) (conflict "stale_version")
    version ← found_or not_found (version_of i.workflow_version_id db)
    n ← found_or runtime_error (node_of t.node_id version.graph.nodes)
    m ← effective_members services now i t snapshot db.delegations
    raise_if (not (has actor_id m.base || is_some (stands_in_for m actor_id)))
        (forbidden "approver")
    check_assignment body adapter i n snapshot db
    let principal = principal_of (acting_for m actor_id) actor_id
    raise_if
        (not (is_comment body.outcome) && any (decided_by t.id actor_id principal) db.decisions)
        (conflict "already_decided")
    ok m

  -- The decision is recorded, and acts.
  unfoldable pub record_decision :
      ℕ
      → ℕ
      → ℕ
      → ℕ
      → DecisionWrite
      → Instance
      → Task
      → Adapter D
      → Snapshot
      → Members
      → Db D
      → Result (Db D)
  record_decision now decision_id new_task_id actor_id body i t adapter snapshot m db = do
    documents ←
        prepared (is_approve body.outcome) adapter.prepare_approval body i.document_id actor_id
          db.documents
    act now new_task_id body.outcome i t m.base (context_of decision_id actor_id body) (record db {
      decisions = db.decisions ++ decision_row now decision_id actor_id body i t snapshot m ∷ [];
      documents = documents;
    })

  unfoldable pub decide_task :
      ℕ → ℕ → ℕ → ℕ → DecisionWrite → Instance → Task → Db D → Result (Db D)
  decide_task now decision_id new_task_id actor_id body i t db = do
    raise_if (not (is_running i.status && is_open t.status)) (conflict "task_closed")
    adapter ← adapter_for services i.document_type
    snapshot ← adapter.snapshot i.document_id db.documents
    m ← allowed_members now actor_id body i t adapter snapshot db
    record_decision now decision_id new_task_id actor_id body i t adapter snapshot m db

  -- `decide`, with the numbers of the decision and of the task that it may open, for a body that
  -- `validate_action` has returned.
  unfoldable pub decide : ℕ → ℕ → ℕ → ℕ → ℕ → DecisionWrite → Db D → Result (Db D)
  decide now decision_id new_task_id task_id actor_id body db = do
    t ← found_or not_found (task_of task_id db)
    i ← found_or not_found (instance_of t.instance_id db)
    decide_task now decision_id new_task_id actor_id body i t db

  -- `withdraw`: the caller has authorized it.
  unfoldable pub withdraw_document : ℕ → ℕ → String → ℕ → ℕ → String → Db D → Result (Db D)
  unfolding find
  withdraw_document now decision_id document_type document_id actor_id reason db = do
    i ← found_or (conflict "task_closed") (
        find (λ (i : Instance). concerns document_type document_id i && is_running i.status)
          db.instances)
    adapter ← adapter_for services document_type
    snapshot ← adapter.snapshot document_id db.documents
    let d : Decision = record {
      id = decision_id;
      instance_id = i.id;
      task_id = none;
      actor_id = actor_id;
      on_behalf_of = none;
      authority = if actor_id == i.requester_id then requester else admin;
      outcome = withdraw;
      reject_mode = none;
      comment = if is_blank reason then none else some (strip reason);
      document_version = snapshot.version;
      members_at_decision = [];
      decided_at = now;
    }
    let context : OutcomeContext = record {
      actor_id = actor_id;
      decision_id = some decision_id;
      assign_project_id = none;
      reject_mode = none;
    }
    finish now i Outcome.withdrawn context (record db { decisions = db.decisions ++ d ∷ [] })

  unfoldable pub withdraw_instance : ℕ → ℕ → ℕ → ℕ → Option String → Db D → Result (Db D)
  withdraw_instance now decision_id instance_id actor_id why db = do
    i ← found_or not_found (instance_of instance_id db)
    raise_if (not (i.requester_id == actor_id)) (forbidden "requester")
    raise_if (not (is_running i.status)) (conflict "task_closed")
    withdraw_document now decision_id i.document_type i.document_id actor_id
        (elim why [ none ↦ "" | some c ↦ c ]) db
