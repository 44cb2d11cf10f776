-- ===== src/Approvals/Consistent.antt =====
-- The instances and the tasks of the approvals agree: what the commands of
-- apps/api/src/flo/modules/approvals (engine.py, decisions.py, material.py) keep of their tables.
pub mod Updates
pub mod Steps
pub mod Commands
pub mod Rows
pub mod Reached
use mathlib.Core.Path.{subst}
use xlr8_flo.Common.{
  ℕ, ◌≡◌, ◌≢◌, refl, sym, ap, ◌∙◌, ◌⊎◌, inl, inr, String, Bool, true, false, not, ◌&&◌, Option,
  none, some, List, [], ◌∷◌, ◌++◌, map, ◌==◌, ==_iff, arith, if◌then◌else◌, Bool-cases,
  some-injective,
}
use xlr8_flo.Common.Membership.{
  In, In-map, In-image, In-snoc, In-left, In-last, unique_snoc, find-In, any-In,
}
use xlr8_flo.Approvals.Tables.{
  Instance, is_running, Task, is_open, overwrite, closed_if, cancelled_if,
}

-- An open task stands at the current node of its instance, which runs.
abbrev pub Placed : Task → Instance → Type 0
Placed t i =
    (t.instance_id ≡ i.id) × (is_running i.status ≡ true) × (i.current_node_id ≡ some t.node_id)

abbrev pub SameNode : Task → Task → Type 0
SameNode t u = (t.instance_id ≡ u.instance_id) × (t.node_id ≡ u.node_id)

-- Two instances that run for one document.
abbrev pub BothRunning : Instance → Instance → Type 0
BothRunning i j =
    (is_running i.status ≡ true)
    × (is_running j.status ≡ true)
    × (i.document_type ≡ j.document_type)
    × (i.document_id ≡ j.document_id)

-- The rows of an instance's number run.
abbrev pub Ran : Instance → List Instance → Type 0
Ran i is = (r : Instance) → In r is → r.id ≡ i.id → is_running r.status ≡ true

-- The primary keys, UNIQUE(instance_id,node_id) of the tasks, the index of running instances, and
-- the agreement of both tables.
pub record Keys (is : List Instance) (ts : List Task) : Type 0 where
  pub instance_ids : (i j : Instance) → In i is → In j is → i.id ≡ j.id → i ≡ j
  pub running : (i j : Instance) → In i is → In j is → BothRunning i j → i ≡ j
  pub task_ids : (t u : Task) → In t ts → In u ts → t.id ≡ u.id → t ≡ u
  pub nodes : (t u : Task) → In t ts → In u ts → SameNode t u → t ≡ u

pub record Consistent (is : List Instance) (ts : List Task) : Type 0 where
  pub keys : Keys is ts
  pub placed :
      (t : Task) → In t ts → is_open t.status ≡ true → (i : Instance) × In i is × Placed t i
  pub staffed :
      (i : Instance)
      → In i is
      → is_running i.status ≡ true
      → (t : Task) × In t ts × (is_open t.status ≡ true) × Placed t i

-- The tables agree but for one instance, which is there.
pub record Almost (k : ℕ) (is : List Instance) (ts : List Task) : Type 0 where
  pub keys : Keys is ts
  pub present : (r : Instance) × In r is × (r.id ≡ k)
  pub placed :
      (t : Task)
      → In t ts
      → is_open t.status ≡ true
      → t.instance_id ≢ k
      → (i : Instance) × In i is × Placed t i
  pub staffed :
      (i : Instance)
      → In i is
      → is_running i.status ≡ true
      → i.id ≢ k
      → (t : Task) × In t ts × (is_open t.status ≡ true) × Placed t i

-- No task of an instance is open.
abbrev pub NoneOpen : ℕ → List Task → Type 0
NoneOpen k ts = (t : Task) → In t ts → t.instance_id ≡ k → is_open t.status ≡ false

pub Consistent-Almost :
    (k : ℕ) (is : List Instance) (ts : List Task) (r : Instance)
    → In r is
    → r.id ≡ k
    → Consistent is ts
    → Almost k is ts
Consistent-Almost k is ts r found same c = record {
  keys = c.keys;
  present = (r, found, same);
  placed = λ t h o _. c.placed t h o;
  staffed = λ i h o _. c.staffed i h o;
}
