-- ===== src/Approvals/Decisions/Decided.antt =====
-- What a decision that succeeded has passed (apps/api/src/flo/modules/approvals/decisions.py), taken
-- apart once for the proofs that follow.
use mathlib.Core.Path.{subst}
use xlr8_flo.Common.{ℕ, ◌≡◌, false, not, ◌&&◌, ◌||◌, Option, none, some, [], ◌∷◌, ◌++◌, ◌==◌, any}
use xlr8_flo.Common.Problems.{
  Problem, not_found, runtime_error, ok, >>=-eq-ok, >>-eq-ok, ok-injective, err-ne-ok,
}
use xlr8_flo.Approvals.Graph.{node_of}
use xlr8_flo.Approvals.Tables.{
  Instance, is_running, Task, is_open, Snapshot, Adapter, Services, Db, instance_of, task_of,
  version_of,
}
use xlr8_flo.Approvals.Members.{has, Members, stands_in_for, effective_members, adapter_for}
use xlr8_flo.Approvals.Engine.{found_or}
use xlr8_flo.Approvals.Decisions.{
  decided_by, principal_of, acting_for, decision_row, context_of, act, check_assignment,
  allowed_members, record_decision, decide_task, decide, prepared,
}
use xlr8_flo.Approvals.Writes.{DecisionWrite, is_some, is_approve, is_comment}

pub found_or-ok {ℓ} :
    {A : Type ℓ} (e : Problem) (o : Option A) {a : A} → found_or e o ≡ ok a → o ≡ some a
found_or-ok e none h = absurd (err-ne-ok h)
found_or-ok e (some a) h = cc

module _ {D : Type 0} (services : Services D) where
  -- The actor may decide, and has not decided.
  pub record Allowed (now actor_id : ℕ) (body : DecisionWrite) (i : Instance) (t : Task)
      (snapshot : Snapshot) (m : Members) (db : Db D) : Type 0 where
    pub current : not (body.document_version == snapshot.version) ≡ false
    pub members : effective_members services now i t snapshot db.delegations ≡ ok m
    pub allowed : not (has actor_id m.base || is_some (stands_in_for m actor_id)) ≡ false
    pub fresh :
        (not (is_comment body.outcome)
          && any
              (decided_by t.id actor_id (principal_of (acting_for m actor_id) actor_id))
              db.decisions)
        ≡ false

  allowed_members-Allowed :
      (now actor_id : ℕ) (body : DecisionWrite) (i : Instance) (t : Task) (adapter : Adapter D)
      (snapshot : Snapshot) (db : Db D) {m : Members}
      → allowed_members services now actor_id body i t adapter snapshot db ≡ ok m
      → Allowed now actor_id body i t snapshot m db
  unfolding allowed_members any
  allowed_members-Allowed now actor_id body i t adapter snapshot db h =
      let (current, h₁) = >>-eq-ok _ _ _ h in
      let (v, _, h₂) = >>=-eq-ok (found_or not_found (version_of i.workflow_version_id db)) _ h₁ in
      let (n, _, h₃) = >>=-eq-ok (found_or runtime_error (node_of t.node_id v.graph.nodes)) _ h₂ in
      let (m, members, h₄) =
        >>=-eq-ok (effective_members services now i t snapshot db.delegations) _ h₃ in
      let (allowed, h₅) = >>-eq-ok _ _ _ h₄ in
      let (_, _, h₆) = >>=-eq-ok (check_assignment services body adapter i n snapshot db) _ h₅ in
      let (fresh, h₇) = >>-eq-ok _ _ _ h₆ in
      subst (λ k. Allowed now actor_id body i t snapshot k db) (ok-injective h₇)
        (record { current = current; members = members; allowed = allowed; fresh = fresh })

  -- The members, the tables and the documents that a recorded decision was made with.
  pub record Recorded (now decision_id new_task_id actor_id : ℕ) (body : DecisionWrite)
      (i : Instance) (t : Task) (db db' : Db D) : Type 0 where
    pub snapshot : Snapshot
    pub m : Members
    pub documents : D
    pub live : not (is_running i.status && is_open t.status) ≡ false
    pub checked : Allowed now actor_id body i t snapshot m db
    pub acted :
        act services now new_task_id body.outcome i t m.base
          (context_of decision_id actor_id body)
          (record db {
            decisions =
                db.decisions ++ decision_row now decision_id actor_id body i t snapshot m ∷ [];
            documents = documents;
          })
        ≡ ok db'

  pub decide_task-Recorded :
      (now decision_id new_task_id actor_id : ℕ) (body : DecisionWrite) (i : Instance) (t : Task)
      (db : Db D) {db' : Db D}
      → decide_task services now decision_id new_task_id actor_id body i t db ≡ ok db'
      → Recorded now decision_id new_task_id actor_id body i t db db'
  unfolding decide_task record_decision
  decide_task-Recorded now decision_id new_task_id actor_id body i t db h =
      let (live, h₁) = >>-eq-ok _ _ _ h in
      let (adapter, _, h₂) = >>=-eq-ok (adapter_for services i.document_type) _ h₁ in
      let (snapshot, _, h₃) = >>=-eq-ok (adapter.snapshot i.document_id db.documents) _ h₂ in
      let (m, checked, h₄) =
        >>=-eq-ok (allowed_members services now actor_id body i t adapter snapshot db) _ h₃ in
      let (documents, _, h₅) =
        >>=-eq-ok
          (prepared services (is_approve body.outcome) adapter.prepare_approval body i.document_id
            actor_id db.documents)
          _ h₄ in
      record {
        snapshot = snapshot;
        m = m;
        documents = documents;
        live = live;
        checked = allowed_members-Allowed now actor_id body i t adapter snapshot db checked;
        acted = h₅;
      }

  -- The task and the instance of a decision, with the rest.
  pub record Decided (now decision_id new_task_id task_id actor_id : ℕ) (body : DecisionWrite)
      (db db' : Db D) : Type 0 where
    pub t : Task
    pub i : Instance
    pub task_found : task_of task_id db ≡ some t
    pub instance_found : instance_of t.instance_id db ≡ some i
    pub recorded : Recorded now decision_id new_task_id actor_id body i t db db'

  pub decide-Decided :
      (now decision_id new_task_id task_id actor_id : ℕ) (body : DecisionWrite) (db : Db D)
      {db' : Db D}
      → decide services now decision_id new_task_id task_id actor_id body db ≡ ok db'
      → Decided now decision_id new_task_id task_id actor_id body db db'
  unfolding decide
  decide-Decided now decision_id new_task_id task_id actor_id body db h =
      let (t, h_t, h₁) = >>=-eq-ok (found_or not_found (task_of task_id db)) _ h in
      let (i, h_i, h₂) = >>=-eq-ok (found_or not_found (instance_of t.instance_id db)) _ h₁ in
      record {
        t = t;
        i = i;
        task_found = found_or-ok not_found (task_of task_id db) h_t;
        instance_found = found_or-ok not_found (instance_of t.instance_id db) h_i;
        recorded = decide_task-Recorded now decision_id new_task_id actor_id body i t db h₂;
      }
