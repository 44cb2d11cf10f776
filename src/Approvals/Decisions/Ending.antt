-- ===== src/Approvals/Decisions/Ending.antt =====
-- The end of an approval by a rejection or a return: `decide` and `_end` of
-- apps/api/src/flo/modules/approvals/decisions.py.
use mathlib.Core.Path.{subst}
use xlr8_flo.Common.{
  ℕ, ◌≡◌, sym, ap, ◌∙◌, inl, inr, Option, none, some, List, [], ◌∷◌, map, ◌==◌, ==_iff, Bool-cases,
  some-injective, find, find_sound,
}
use xlr8_flo.Common.Problems.{Result, ok, >>=-eq-ok, ok-injective}
use xlr8_flo.Approvals.Tables.{
  Outcome, Instance, Task, DecisionOutcome, approve, reject, give_back, comment, withdraw,
  OutcomeContext, Adapter, Services, Db, overwrite, save, close_task, cancel_tasks, instance_of,
  task_of,
}
use xlr8_flo.Approvals.Members.{adapter_for}
use xlr8_flo.Approvals.Writes.{DecisionWrite}
use xlr8_flo.Approvals.Decisions.{finish, ended, status_of, act, decide, context_of}
use xlr8_flo.Approvals.Decisions.Decided.{decide-Decided}
use xlr8_flo.Approvals.Consistent.{NoneOpen}
use xlr8_flo.Approvals.Consistent.Updates.{overwrite_id, overwrite_self}
use xlr8_flo.Approvals.Consistent.Steps.{cancel-NoneOpen}

-- The outcome of the approval that a decision brings about at once.
abbrev pub ending : DecisionOutcome → Option Outcome
ending reject = some Outcome.rejected
ending give_back = some Outcome.returned
ending _ = none

find-overwrite :
    (e : Instance) (k : ℕ) (is : List Instance) {r : Instance}
    → find (λ (x : Instance). x.id == k) is ≡ some r
    → find (λ (x : Instance). x.id == k) (map (overwrite e) is) ≡ some (overwrite e r)
unfolding find
find-overwrite e k [] h = absurd (cc)
find-overwrite e k (x ∷ is) h =
    let kept : ((overwrite e x).id == k) ≡ (x.id == k) = ap (λ y. y == k) (overwrite_id e x) in
    elim (Bool-cases (x.id == k)) [
      | inl hit ↦ rw (kept, hit) (ap (λ y. some (overwrite e y)) (some-injective (rw (hit) at h)))
      | inr miss ↦ rw (kept, miss) (find-overwrite e k is (rw (miss) at h))
    ]

module _ {D : Type 0} where
  -- An instance that ended, with no open task, and whose document was told.
  pub record Over (id : ℕ) (document_id : ℕ) (type_adapter : Result (Adapter D)) (o : Outcome)
      (c : OutcomeContext) (db' : Db D) : Type 0 where
    pub row : Instance
    pub found : instance_of id db' ≡ some row
    pub status : row.status ≡ status_of o
    pub nowhere : row.current_node_id ≡ none
    pub shut : NoneOpen id db'.tasks
    pub adapter : Adapter D
    pub registered : type_adapter ≡ ok adapter
    pub before : D
    pub told : adapter.on_outcome document_id o c before ≡ ok db'.documents

module _ {D : Type 0} (services : Services D) where
  finish-Over :
      (now : ℕ) (i : Instance) (o : Outcome) (c : OutcomeContext) (db : Db D) {r : Instance}
      {db' : Db D}
      → instance_of i.id db ≡ some r
      → finish services now i o c db ≡ ok db'
      → Over i.id i.document_id (adapter_for services i.document_type) o c db'
  unfolding finish save cancel_tasks instance_of
  finish-Over now i o c db {r} here h =
      let (adapter, registered, h₁) = >>=-eq-ok (adapter_for services i.document_type) _ h in
      let (documents, told, h₂) =
        >>=-eq-ok (adapter.on_outcome i.document_id o c db.documents) _ h₁ in
      let e = ended now i o c.actor_id in
      let same : r.id ≡ i.id =
        (==_iff r.id i.id).0 (find_sound (λ (x : Instance). x.id == i.id) db.instances here) in
      let self = overwrite_self e r same in
      subst (Over i.id i.document_id (adapter_for services i.document_type) o c) (ok-injective h₂)
        (record {
          row = overwrite e r;
          found = find-overwrite e i.id db.instances here;
          status = self.0;
          nowhere = self.1;
          shut = cancel-NoneOpen db.instances db.tasks now i.id;
          adapter = adapter;
          registered = registered;
          before = db.documents;
          told = told;
        })

  act-Over :
      (now id : ℕ) (d : DecisionOutcome) (i : Instance) (t : Task) (members : List ℕ)
      (c : OutcomeContext) (db : Db D) (o : Outcome) {r : Instance} {db' : Db D}
      → ending d ≡ some o
      → instance_of i.id db ≡ some r
      → act services now id d i t members c db ≡ ok db'
      → Over i.id i.document_id (adapter_for services i.document_type) o c db'
  unfolding act close_task instance_of
  act-Over now id reject i t members c db o {db' = db'} e here h =
      subst (λ p. Over i.id i.document_id (adapter_for services i.document_type) p c db')
        (some-injective e) (finish-Over now i Outcome.rejected c _ here h)
  act-Over now id give_back i t members c db o {db' = db'} e here h =
      subst (λ p. Over i.id i.document_id (adapter_for services i.document_type) p c db')
        (some-injective e) (finish-Over now i Outcome.returned c _ here h)
  act-Over now id approve i t members c db o e here h = absurd (cc)
  act-Over now id comment i t members c db o e here h = absurd (cc)
  act-Over now id withdraw i t members c db o e here h = absurd (cc)

  -- A rejection or a return that is recorded ends the approval of its task: the instance has the
  -- status of the outcome and no current step, none of its tasks is open, and the document's module
  -- has taken the outcome.
  pub decide-Over :
      (now id new task_id actor : ℕ) (body : DecisionWrite) (db : Db D) (t : Task) (i : Instance)
      (o : Outcome) {db' : Db D}
      → task_of task_id db ≡ some t
      → instance_of t.instance_id db ≡ some i
      → ending body.outcome ≡ some o
      → decide services now id new task_id actor body db ≡ ok db'
      → Over i.id i.document_id
          (adapter_for services i.document_type)
          o
          (context_of id actor body)
          db'
  unfolding instance_of
  decide-Over now id new task_id actor body db t i o {db'} t_found i_found e h =
      let r = decide-Decided services now id new task_id actor body db h in
      let same_t : r.t ≡ t = some-injective (sym r.task_found ∙ t_found) in
      let same_i : r.i ≡ i =
        some-injective (
          sym r.instance_found
          ∙ ap (λ (x : Task). instance_of x.instance_id db) same_t
          ∙ i_found) in
      let own : r.i.id ≡ r.t.instance_id =
        (==_iff r.i.id r.t.instance_id).0
          (find_sound (λ (x : Instance). x.id == r.t.instance_id) db.instances r.instance_found) in
      let here : instance_of r.i.id db ≡ some r.i =
        ap (λ k. instance_of k db) own ∙ r.instance_found in
      subst
        (λ (j : Instance).
          Over j.id j.document_id (adapter_for services j.document_type) o
            (context_of id actor body) db')
        same_i
        (act-Over now new body.outcome r.i r.t r.recorded.m.base (context_of id actor body) _ o e
          here r.recorded.acted)
