-- ===== src/Approvals/Members.antt =====
-- Who may decide a task: apps/api/src/flo/modules/approvals/eligibility.py, `current_members` of
-- engine.py and `effective_members` of delegation.py.
pub mod Separation
use xlr8_flo.Common.{
  ℕ, String, Bool, true, false, not, ◌&&◌, ◌||◌, Option, none, some, List, [], ◌∷◌, ◌++◌, ◌==◌, ltb,
  leb, if◌then◌else◌, any,
}
use xlr8_flo.Common.Equality.{◌===◌, String_eq}
use xlr8_flo.Common.Problems.{Result, Problem, validation_failed, not_found, ok, err, ◌>>=◌, ◌>>◌}
use xlr8_flo.Approvals.Conditions.{mem}
use xlr8_flo.Approvals.Graph.{
  Approvers, role, users, permission, Node, Route, RouteEntry, branch, step,
}
use xlr8_flo.Approvals.Tables.{
  Instance, Task, Delegation, Target, ScopeType, org, bu, project, Snapshot, Adapter, Services, Db,
}

abbrev pub has : ℕ → List ℕ → Bool
has x xs = any (λ y. y == x) xs

unfoldable pub keep : (ℕ → Bool) → List ℕ → List ℕ
keep p [] = []
keep p (x ∷ xs) = let rest = keep p xs in if p x then x ∷ rest else rest

-- `decided_by` of the entries of the route for other nodes
unfoldable pub decided_elsewhere : String → Route → List ℕ
decided_elsewhere node_id [] = []
decided_elsewhere node_id (branch b ∷ rest) = decided_elsewhere node_id rest
decided_elsewhere node_id (step s ∷ rest) =
    let others = decided_elsewhere node_id rest in
    if s.node_id === node_id then others else s.decided_by ++ others

-- `adapter_for`: a type of document that is not registered is a validation error.
abbrev pub adapter_or : {D : Type 0} → Option (Adapter D) → Result (Adapter D)
adapter_or none = err (validation_failed "document_type")
adapter_or (some a) = ok a

abbrev pub unrepeated : Bool → String → Route → List ℕ → List ℕ
unrepeated true node_id route members = members
unrepeated false node_id route members =
    keep (λ m. not (has m (decided_elsewhere node_id route))) members

abbrev pub active : ℕ → String → List ℕ → Delegation → Bool
active now document_type base d =
    elim d.revoked_at [ none ↦ true | some at ↦ false ]
    && leb d.starts_at now
    && ltb now d.ends_at
    && has d.delegator_id base
    && not (has d.delegate_id base)
    && elim d.document_types [ none ↦ true | some types ↦ mem document_type types ]

unfoldable pub rows_of : (Delegation → Bool) → List Delegation → List Delegation
rows_of p [] = []
rows_of p (d ∷ ds) = let rest = rows_of p ds in if p d then d ∷ rest else rest

-- `effective.delegates.get(user)`: the delegator of the first of the rows for a delegate who is able.
unfoldable pub delegator_of : (ℕ → Bool) → ℕ → List Delegation → Option ℕ
delegator_of able user [] = none
delegator_of able user (d ∷ ds) =
    if d.delegate_id == user && able d.delegate_id
    then some d.delegator_id
    else delegator_of able user ds

-- Members: the deciders of the rule and of the escalation, and who stands in for a user.
pub record Members : Type 0 where
  pub base : List ℕ
  pub delegates : List Delegation
  pub able : ℕ → Bool

abbrev pub stands_in_for : Members → ℕ → Option ℕ
stands_in_for m user = delegator_of m.able user m.delegates

abbrev pub no_delegates : List ℕ → Members
no_delegates base = record { base = base; delegates = []; able = λ u. false }

abbrev pub active_rows : ℕ → Instance → List ℕ → List Delegation → List Delegation
active_rows now i [] rows = []
active_rows now i (b ∷ bs) rows = rows_of (active now i.document_type (b ∷ bs)) rows

abbrev pub default_true : Option Bool → Bool
default_true none = true
default_true (some b) = b

abbrev pub unit_or_missing : Option ℕ → Result ℕ
unit_or_missing none = err not_found
unit_or_missing (some id) = ok id

module _ {D : Type 0} (services : Services D) where
  unfoldable pub adapter_for : String → Result (Adapter D)
  adapter_for document_type = adapter_or (services.adapter document_type)

  abbrev pub selected : Approvers → Target → List ℕ → List ℕ
  selected (users ids) target holders = keep (λ h. has h ids) holders
  selected (role code) target holders =
      keep (λ h. has h (services.role_holders code target)) holders
  selected permission target holders = holders

  -- Whether the requester is left out of the approvers of a target.
  unfoldable pub separation : Target → Result Bool
  separation target = elim target.scope_type [
    | org ↦ ok (default_true services.org_separation)
    | bu ↦ services.unit_separation target.scope_id
    | project ↦ do
      unit ← unit_or_missing (services.business_unit target)
      services.unit_separation unit
  ]

  -- `eligible_approvers`, the members
  unfoldable pub eligible_approvers : String → Approvers → Target → ℕ → Result (List ℕ)
  eligible_approvers document_type rule target requester_id = do
    adapter ← adapter_for document_type
    let chosen = selected rule target (services.holders adapter.approve_permission target)
    separated ← separation target
    ok (if separated then keep (λ h. not (h == requester_id)) chosen else chosen)

  -- `current_members`, of a node with these approvers
  unfoldable pub current_members : Instance → String → Bool → Approvers → Snapshot → Result (List ℕ)
  current_members i node_id allow_repeat rule snapshot = do
    members ← eligible_approvers i.document_type rule snapshot.target i.requester_id
    ok (unrepeated allow_repeat node_id i.route members)

  unfoldable pub with_delegates :
      ℕ → Instance → Task → Snapshot → List Delegation → List ℕ → Result Members
  with_delegates now i t snapshot [] base = ok (no_delegates base)
  with_delegates now i t snapshot (d ∷ ds) base = do
    able ← eligible_approvers i.document_type permission snapshot.target i.requester_id
    ok (record {
      base = base;
      delegates = d ∷ ds;
      able =
          λ u. has u able && (t.allow_repeat || not (has u (decided_elsewhere t.node_id i.route)));
    })

  abbrev pub escalated :
      Instance → Task → Snapshot → Option (ℕ × Approvers) → Option ℕ → List ℕ → Result (List ℕ)
  escalated i t snapshot (some (days, approvers)) (some at) base = do
    extra ← current_members i t.node_id t.allow_repeat approvers snapshot
    ok (base ++ keep (λ m. not (has m base)) extra)
  escalated i t snapshot _ _ base = ok base

  -- `effective_members`
  unfoldable pub effective_members :
      ℕ → Instance → Task → Snapshot → List Delegation → Result Members
  effective_members now i t snapshot delegations = do
    members ← current_members i t.node_id t.allow_repeat t.approver_rule snapshot
    base ← escalated i t snapshot t.escalation_rule t.escalated_at members
    with_delegates now i t snapshot (active_rows now i base delegations) base
