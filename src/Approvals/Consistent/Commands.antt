-- ===== src/Approvals/Consistent/Commands.antt =====
-- The commands of approvals, one after another: `start` and `advance` of engine.py, `decide` and
-- `withdraw` of decisions.py, `supersede` and `rebase_digest` of material.py
-- (apps/api/src/flo/modules/approvals).
use mathlib.Core.Path.{subst}
use xlr8_flo.Common.{
  true-ne-false, ℕ, ◌≡◌, ◌≢◌, refl, sym, ap, ◌∙◌, inl, inr, String, true, false, List, map, ==_iff,
  not-false, and_elim, any,
}
use xlr8_flo.Common.Equality.{◌===◌, ===_refl, String_eq}
use xlr8_flo.Common.Problems.{not_found, ok, >>=-eq-ok, >>-eq-ok, if-ok, ok-injective}
use xlr8_flo.Common.Membership.{In, In-map, any-In}
use xlr8_flo.Approvals.Graph.{Node, is_end}
use xlr8_flo.Approvals.Tables.{
  Status, Outcome, Instance, is_running, Task, is_open, Decision, Snapshot, OutcomeContext,
  Services, Db, closed_if, cancelled_if, save, close_task, cancel_tasks, version_of,
}
use xlr8_flo.Approvals.Members.{adapter_for, current_members}
use xlr8_flo.Approvals.Engine.{
  approved_now, open_task, finish_approved, enter, next_walk, advance_task, found_or,
}
use xlr8_flo.Approvals.Steps.{new_task, opened_at}
use xlr8_flo.Approvals.Decisions.{ended, finish, status_of}
use xlr8_flo.Approvals.Consistent.{Ran, Consistent, Almost, NoneOpen, Consistent-Almost}
use xlr8_flo.Approvals.Consistent.Updates.{closed_if-Closes}
use xlr8_flo.Approvals.Consistent.Steps.{
  close-Almost, close-NoneOpen, cancel-Almost, cancel-NoneOpen, end-Consistent, open-Consistent,
}

node_is : (a b : String) → a ≡ b → (a === b) ≡ true
node_is a b h = ap (λ x. x === b) h ∙ ===_refl b

module _ {D : Type 0} where
  abbrev pub Agree : Db D → Type 0
  Agree db = Consistent db.instances db.tasks

  -- A number that no task has.
  abbrev pub Fresh : ℕ → Db D → Type 0
  Fresh id db = (u : Task) → In u db.tasks → u.id ≢ id

  -- The tables agree but for one instance, which has no open task.
  pub record Between (k : ℕ) (db : Db D) : Type 0 where
    pub almost : Almost k db.instances db.tasks
    pub shut : NoneOpen k db.tasks

  pub closed-Fresh :
      (now task_id : ℕ) (o : Status) (id : ℕ) (db : Db D)
      → Fresh id db
      → Fresh id (close_task now task_id o db)
  unfolding close_task
  closed-Fresh now task_id o id db fresh u h e =
      let (v, v_in, same) = In-map (closed_if now task_id o) u db.tasks h in
      fresh v v_in
        (sym ((closed_if-Closes now task_id o).ids v) ∙ ap (λ (x : Task). x.id) (sym same) ∙ e)

status_of-ends : (o : Outcome) → is_running (status_of o) ≡ false
status_of-ends Outcome.approved = refl
status_of-ends Outcome.rejected = refl
status_of-ends Outcome.returned = refl
status_of-ends Outcome.withdrawn = refl

module _ {D : Type 0} (services : Services D) where
  open_task-Agree :
      (now id : ℕ) (i : Instance) (n : Node) (s : Snapshot) (db : Db D) {db' : Db D}
      → is_running i.status ≡ true
      → Fresh id db
      → Ran i db.instances
      → Between i.id db
      → open_task services now id i n s db ≡ ok db'
      → Agree db'
  unfolding open_task save any
  open_task-Agree now id i n s db runs fresh was b h =
      let (members, _, h₁) =
        >>=-eq-ok (current_members services i n.id n.allow_repeat n.approvers s) _ h in
      let (_, h₂) = >>-eq-ok _ _ _ h₁ in
      let (alone, h₃) = >>-eq-ok _ _ _ h₂ in
      let t = new_task now id i n in
      subst Agree (ok-injective h₃) (
        open-Consistent (opened_at i n) db.instances db.tasks b.almost b.shut t was runs refl refl
          refl fresh
          (λ u u_in same. true-ne-false (
            sym (rw ((==_iff u.instance_id i.id).1 same.0, node_is u.node_id n.id same.1))
            ∙ any-In _ db.tasks alone u u_in)))

  finish_approved-Agree :
      (now : ℕ) (i : Instance) (c : OutcomeContext) (db : Db D) {db' : Db D}
      → Between i.id db
      → finish_approved services now i c db ≡ ok db'
      → Agree db'
  unfolding finish_approved save
  finish_approved-Agree now i c db b h =
      let (adapter, _, h₁) = >>=-eq-ok (adapter_for services i.document_type) _ h in
      let (_, h₂) = >>-eq-ok _ _ _ h₁ in
      let (s, _, h₃) = >>=-eq-ok (adapter.snapshot i.document_id db.documents) _ h₂ in
      let (documents, _, h₄) =
        >>=-eq-ok (adapter.on_outcome i.document_id Outcome.approved c db.documents) _ h₃ in
      subst Agree (ok-injective h₄)
        (end-Consistent (approved_now services now i s) db.instances db.tasks b.almost b.shut refl)

  pub enter-Agree :
      (now id : ℕ) (i : Instance) (n : Node) (s : Snapshot) (c : OutcomeContext) (db : Db D)
      {db' : Db D}
      → is_running i.status ≡ true
      → Fresh id db
      → Ran i db.instances
      → Between i.id db
      → enter services now id i n s c db ≡ ok db'
      → Agree db'
  unfolding enter
  enter-Agree now id i n s c db runs fresh was b h = elim (if-ok (is_end n.kind) _ _ h) [
    | inl (_, k) ↦ finish_approved-Agree now i c db b k
    | inr (_, k) ↦ open_task-Agree now id i n s db runs fresh was b k
  ]

  -- The task of an instance is closed, and the approval goes on.
  pub closed-Between :
      (now : ℕ) (o : Status) (i : Instance) (t : Task) (db : Db D)
      → In i db.instances
      → In t db.tasks
      → t.instance_id ≡ i.id
      → is_open t.status ≡ true
      → Agree db
      → Between i.id (close_task now t.id o db)
  unfolding close_task
  closed-Between now o i t db i_in t_in own t_open c =
      let a = Consistent-Almost t.instance_id db.instances db.tasks i i_in (sym own) c in
      record {
        almost =
            subst (λ k. Almost k db.instances (map (closed_if now t.id o) db.tasks)) own
              (close-Almost db.instances db.tasks now t o t_in a);
        shut =
            subst (λ k. NoneOpen k (map (closed_if now t.id o) db.tasks)) own
              (close-NoneOpen db.instances db.tasks now t o t_in t_open c);
      }

  pub finish-Agree :
      (now : ℕ) (i : Instance) (o : Outcome) (c : OutcomeContext) (db : Db D) {db' : Db D}
      → Almost i.id db.instances db.tasks
      → finish services now i o c db ≡ ok db'
      → Agree db'
  unfolding finish save cancel_tasks
  finish-Agree now i o c db a h =
      let (adapter, _, h₁) = >>=-eq-ok (adapter_for services i.document_type) _ h in
      let (documents, _, h₂) = >>=-eq-ok (adapter.on_outcome i.document_id o c db.documents) _ h₁ in
      subst Agree (ok-injective h₂) (
        end-Consistent (ended now i o c.actor_id) db.instances
          (map (cancelled_if now i.id) db.tasks) (cancel-Almost db.instances db.tasks now i.id a)
          (cancel-NoneOpen db.instances db.tasks now i.id) (status_of-ends o))

  pub advance_task-Agree :
      (now id : ℕ) (i : Instance) (t : Task) (c : OutcomeContext) (ds : List Decision) (db : Db D)
      {db' : Db D}
      → Fresh id db
      → In i db.instances
      → In t db.tasks
      → t.instance_id ≡ i.id
      → Agree db
      → advance_task services now id i t c ds db ≡ ok db'
      → Agree db'
  unfolding advance_task close_task
  advance_task-Agree now id i t c ds db fresh i_in t_in own agree h =
      let (live, h₁) = >>-eq-ok _ _ _ h in
      let (runs, t_open) = and_elim (is_running i.status) (is_open t.status) (not-false _ live) in
      let (adapter, _, h₂) = >>=-eq-ok (adapter_for services i.document_type) _ h₁ in
      let (s, _, h₃) = >>=-eq-ok (adapter.snapshot i.document_id db.documents) _ h₂ in
      let (v, _, h₄) = >>=-eq-ok (found_or not_found (version_of i.workflow_version_id db)) _ h₃ in
      let (w, _, h₅) = >>=-eq-ok (next_walk services v s i t c ds) _ h₄ in
      enter-Agree now id (record i { route = w.route }) w.node s c
        (close_task now t.id Status.approved db) runs
        (closed-Fresh now t.id Status.approved id db fresh)
        (λ r r_in same.
          ap (λ (x : Instance). is_running x.status) (agree.keys.instance_ids r i r_in i_in same)
          ∙ runs)
        (closed-Between now Status.approved i t db i_in t_in own t_open agree) h₅
