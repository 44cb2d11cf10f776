-- ===== src/Approvals/Material.antt =====
-- The approval in force of a document and the changes of its material:
-- apps/api/src/flo/modules/approvals/material.py. The audit row is not modelled.
use xlr8_flo.Common.{
  ℕ, String, Bool, true, false, not, ◌&&◌, ◌||◌, Option, none, some, ◌==◌, if◌then◌else◌,
}
use xlr8_flo.Common.Equality.{◌===◌, String_eq, Option_eq}
use xlr8_flo.Common.Problems.{Result, conflict, ok, err, ◌>>=◌, ◌>>◌, raise_if}
use xlr8_flo.Approvals.Tables.{
  Status, running, approved, superseded, is_running, is_approved, Instance, Services, Db, save,
  concerns, latest,
}
use xlr8_flo.Approvals.Members.{adapter_for}
use xlr8_flo.Approvals.Engine.{or_else}

abbrev pub counts : Status → Bool
counts running = true
counts approved = true
counts superseded = true
counts _ = false

-- ApprovalState; `status` is none where no approval was started.
pub record ApprovalState : Type 0 where
  pub status : Option Status
  pub instance_id : Option ℕ
  pub approved_version : Option ℕ
  pub approved_material_digest : Option String
  pub running_instance_id : Option ℕ

abbrev pub state_of : Option Instance → ApprovalState
state_of none = record {
  status = none;
  instance_id = none;
  approved_version = none;
  approved_material_digest = none;
  running_instance_id = none;
}
state_of (some i) = record {
  status = some i.status;
  instance_id = some i.id;
  approved_version = if is_approved i.status then i.approved_version else none;
  approved_material_digest = i.approved_material_digest;
  running_instance_id = if is_running i.status then some i.id else none;
}

abbrev pub is_approved_state : ApprovalState → Bool
is_approved_state s = elim s.status [ none ↦ false | some status ↦ is_approved status ]

module _ {D : Type 0} where
  -- `_in_force`
  unfoldable pub in_force : String → ℕ → Db D → Option Instance
  in_force document_type document_id db =
      or_else (latest (λ i. concerns document_type document_id i && counts i.status) db.instances)
        (latest (concerns document_type document_id) db.instances)

  unfoldable pub approval_state : String → ℕ → Db D → ApprovalState
  approval_state document_type document_id db = state_of (in_force document_type document_id db)

module _ {D : Type 0} (services : Services D) where
  unfoldable pub requires_resubmission : String → ℕ → Db D → Result Bool
  requires_resubmission document_type document_id db = do
    let state = approval_state document_type document_id db
    let differs : Result Bool = do
      adapter ← adapter_for services document_type
      snapshot ← adapter.snapshot document_id db.documents
      ok (not (state.approved_material_digest === some (services.digest snapshot.material)))
    if is_approved_state state then differs else ok false

  unfoldable pub assert_current_approval : String → ℕ → ℕ → Db D → Result (Unit {0})
  assert_current_approval document_type document_id document_version db = do
    let state = approval_state document_type document_id db
    adapter ← adapter_for services document_type
    snapshot ← adapter.snapshot document_id db.documents
    raise_if
        (not (is_approved_state state)
          || not (document_version == snapshot.version)
          || not (state.approved_material_digest === some (services.digest snapshot.material)))
        (conflict "stale_version")

  abbrev pub superseded_by : Option Instance → Db D → Result (Db D)
  superseded_by none db = err (conflict "stale_version")
  superseded_by (some i) db = do
    raise_if (not (is_approved i.status)) (conflict "stale_version")
    ok (save (record i { status = superseded }) db)

  unfoldable pub supersede : String → ℕ → Db D → Result (Db D)
  supersede document_type document_id db = superseded_by (in_force document_type document_id db) db

  unfoldable pub stamped : String → ℕ → Instance → Db D → Result (Db D)
  stamped document_type document_id i db = do
    adapter ← adapter_for services document_type
    snapshot ← adapter.snapshot document_id db.documents
    ok (save (record i { approved_material_digest = some (services.digest snapshot.material) }) db)

  abbrev pub restamp : String → ℕ → Option Instance → Db D → Result (Db D)
  restamp document_type document_id none db = ok db
  restamp document_type document_id (some i) db =
      if is_approved i.status then stamped document_type document_id i db else ok db

  -- `rebase_digest`: the correction runs first, and the approval that was in force before it is stamped
  -- again.
  unfoldable pub rebase_digest : String → ℕ → (D → Result D) → Db D → Result (Db D)
  rebase_digest document_type document_id mutate db = do
    documents ← mutate db.documents
    restamp document_type document_id (in_force document_type document_id db)
        (record db { documents = documents })
