-- ===== src/Approvals/Consistent/Reached.antt =====
-- The commands of approvals in any order, with the changes that other modules make meanwhile: the
-- state machine of apps/api/src/flo/modules/approvals (engine.py, decisions.py, material.py).
use mathlib.Core.Path.{subst}
use xlr8_flo.Common.{
  ℕ, ◌≡◌, refl, sym, ◌⊎◌, inl, inr, String, Bool, true, false, ◌&&◌, Option, none, some, List, [],
  not-false, and_elim,
}
use xlr8_flo.Common.Problems.{Result, ok, >>=-eq-ok, >>-eq-ok, if-ok, ok-injective, err-ne-ok}
use xlr8_flo.Common.Membership.{In}
use xlr8_flo.Approvals.Tables.{
  Status, Outcome, Instance, is_running, is_approved, Task, is_open, Delegation, WorkflowDefinition,
  WorkflowVersion, DecisionOutcome, approve, reject, give_back, comment, withdraw, OutcomeContext,
  Services, Db, save, concerns, latest,
}
use xlr8_flo.Approvals.Members.{adapter_for}
use xlr8_flo.Approvals.Engine.{start_approval, or_else}
use xlr8_flo.Approvals.Evidence.{step_complete, is_complete}
use xlr8_flo.Approvals.Decisions.{act, decide, context_of, withdraw_document}
use xlr8_flo.Approvals.Writes.{DecisionWrite}
use xlr8_flo.Approvals.Decisions.Decided.{decide-Decided}
use xlr8_flo.Approvals.Material.{
  in_force, counts, superseded_by, supersede, stamped, restamp, rebase_digest,
}
use xlr8_flo.Approvals.Consistent.{Consistent, Almost, NoneOpen}
use xlr8_flo.Approvals.Consistent.Steps.{end-Consistent}
use xlr8_flo.Approvals.Consistent.Commands.{Agree, Fresh, finish-Agree, closed-Between}
use xlr8_flo.Approvals.Consistent.Rows.{
  found_instance, found_task, idle-Between, Unused, latest-In, approved-not_running,
  start_approval-Agree, advance-Agree, withdraw_document-Agree,
}

or_else_lem {ℓ} :
    {A : Type ℓ} (a b : Option A) {c : A} → or_else a b ≡ some c → (a ≡ some c) ⊎ (b ≡ some c)
or_else_lem none b h = inr h
or_else_lem (some a) b h = inl h

module _ {D : Type 0} where
  -- An instance that does not run is saved, and does not run.
  saved-Agree :
      (i j : Instance) (db : Db D)
      → In i db.instances
      → i.id ≡ j.id
      → is_running i.status ≡ false
      → is_running j.status ≡ false
      → Agree db
      → Agree (save j db)
  unfolding save
  saved-Agree i j db i_in same idle over c =
      let b = idle-Between i db i_in idle c in
      end-Consistent j db.instances db.tasks
        (subst (λ k. Almost k db.instances db.tasks) same b.almost)
        (subst (λ k. NoneOpen k db.tasks) same b.shut) over

  in_force-In :
      (document_type : String) (document_id : ℕ) (db : Db D) {i : Instance}
      → in_force document_type document_id db ≡ some i
      → In i db.instances
  unfolding in_force
  in_force-In document_type document_id db h =
      let counting : Instance → Bool =
        λ i. concerns document_type document_id i && counts i.status in
      let any_one : Instance → Bool = concerns document_type document_id in
      elim (or_else_lem (latest counting db.instances) (latest any_one db.instances) h) [
        | inl e ↦ (latest-In counting db.instances e).0
        | inr e ↦ (latest-In any_one db.instances e).0
      ]

module _ {D : Type 0} (services : Services D) where
  act-Agree :
      (now id : ℕ) (o : DecisionOutcome) (i : Instance) (t : Task) (members : List ℕ)
      (c : OutcomeContext) (db : Db D) {db' : Db D}
      → Fresh id db
      → In i db.instances
      → In t db.tasks
      → t.instance_id ≡ i.id
      → is_open t.status ≡ true
      → Agree db
      → act services now id o i t members c db ≡ ok db'
      → Agree db'
  unfolding act
  act-Agree now id approve i t members c db fresh i_in t_in own t_open agree h =
      elim (if-ok (is_complete (step_complete t db.decisions members)) _ _ h) [
        | inl (_, k) ↦ advance-Agree services now id i t c db.decisions db fresh agree k
        | inr (_, k) ↦ subst Agree (ok-injective k) agree
      ]
  act-Agree now id reject i t members c db fresh i_in t_in own t_open agree h =
      finish-Agree services now i Outcome.rejected c _
        (closed-Between services now Status.rejected i t db i_in t_in own t_open agree).almost h
  act-Agree now id give_back i t members c db fresh i_in t_in own t_open agree h =
      finish-Agree services now i Outcome.returned c _
        (closed-Between services now Status.returned i t db i_in t_in own t_open agree).almost h
  act-Agree now id comment i t members c db fresh i_in t_in own t_open agree h =
      subst Agree (ok-injective h) agree
  act-Agree now id withdraw i t members c db fresh i_in t_in own t_open agree h =
      subst Agree (ok-injective h) agree

  decide-Agree :
      (now decision_id new_task_id task_id actor_id : ℕ) (body : DecisionWrite) (db : Db D)
      {db' : Db D}
      → Fresh new_task_id db
      → Agree db
      → decide services now decision_id new_task_id task_id actor_id body db ≡ ok db'
      → Agree db'
  decide-Agree now decision_id new_task_id task_id actor_id body db fresh agree h =
      let d = decide-Decided services now decision_id new_task_id task_id actor_id body db h in
      let r = d.recorded in
      let (i_in, i_id) = found_instance d.t.instance_id db d.instance_found in
      let t_in = found_task task_id db d.task_found in
      let (_, t_open) =
        and_elim (is_running d.i.status) (is_open d.t.status) (not-false _ r.live) in
      act-Agree now new_task_id body.outcome d.i d.t r.m.base (context_of decision_id actor_id body)
        _ fresh i_in t_in (sym i_id) t_open agree r.acted

  superseded_by-Agree :
      (o : Option Instance) (db : Db D)
      → ((i : Instance) → o ≡ some i → In i db.instances)
      → {db' : Db D} → Agree db
      → superseded_by services o db ≡ ok db'
      → Agree db'
  superseded_by-Agree none db found c h = absurd (err-ne-ok h)
  superseded_by-Agree (some i) db found c h =
      let (was, h₁) = >>-eq-ok _ _ _ h in
      let idle = approved-not_running i.status (not-false _ was) in
      let j : Instance = record i { status = Status.superseded } in
      subst Agree (ok-injective h₁) (saved-Agree i j db (found i refl) refl idle refl c)

  supersede-Agree :
      (document_type : String) (document_id : ℕ) (db : Db D) {db' : Db D}
      → Agree db
      → supersede services document_type document_id db ≡ ok db'
      → Agree db'
  unfolding supersede
  supersede-Agree document_type document_id db c h =
      superseded_by-Agree (in_force document_type document_id db) db
        (λ i e. in_force-In document_type document_id db e) c h

  restamp-Agree :
      (document_type : String) (document_id : ℕ) (o : Option Instance) (db : Db D)
      → ((i : Instance) → o ≡ some i → In i db.instances)
      → {db' : Db D} → Agree db
      → restamp services document_type document_id o db ≡ ok db'
      → Agree db'
  unfolding stamped
  restamp-Agree document_type document_id none db found c h = subst Agree (ok-injective h) c
  restamp-Agree document_type document_id (some i) db found c h =
      elim (if-ok (is_approved i.status) _ _ h) [
        | inl (was, k) ↦
            let idle = approved-not_running i.status was in
            let (adapter, _, k₁) = >>=-eq-ok (adapter_for services document_type) _ k in
            let (s, _, k₂) = >>=-eq-ok (adapter.snapshot document_id db.documents) _ k₁ in
            let j : Instance = record i {
              approved_material_digest = some (services.digest s.material);
            } in
            subst Agree (ok-injective k₂) (saved-Agree i j db (found i refl) refl idle idle c)
        | inr (_, k) ↦ subst Agree (ok-injective k) c
      ]

  rebase_digest-Agree :
      (document_type : String) (document_id : ℕ) (mutate : D → Result D) (db : Db D) {db' : Db D}
      → Agree db
      → rebase_digest services document_type document_id mutate db ≡ ok db'
      → Agree db'
  unfolding rebase_digest in_force
  rebase_digest-Agree document_type document_id mutate db c h =
      let (documents, _, h₁) = >>=-eq-ok (mutate db.documents) _ h in
      restamp-Agree document_type document_id (in_force document_type document_id db)
        (record db { documents = documents }) (λ i e. in_force-In document_type document_id db e) c
        h₁

  -- One command, or a change of another module's tables. New rows take unused numbers.
  pub data Step : Db D → Db D → Type 0 where
    started :
        (now instance_id task_id : ℕ) (document_type : String) (document_id : ℕ)
        (resume_from : Option ℕ) {db db' : Db D}
        → Unused instance_id db
        → Fresh task_id db
        → start_approval services now instance_id task_id document_type document_id resume_from db
          ≡ ok db'
        → Step db db'
    decided :
        (now decision_id new_task_id task_id actor_id : ℕ) (body : DecisionWrite) {db db' : Db D}
        → Fresh new_task_id db
        → decide services now decision_id new_task_id task_id actor_id body db ≡ ok db'
        → Step db db'
    withdrawn :
        (now decision_id : ℕ) (document_type : String) (document_id actor_id : ℕ) (reason : String)
        {db db' : Db D}
        → withdraw_document services now decision_id document_type document_id actor_id reason db
          ≡ ok db'
        → Step db db'
    superseded :
        (document_type : String) (document_id : ℕ) {db db' : Db D}
        → supersede services document_type document_id db ≡ ok db'
        → Step db db'
    corrected :
        (document_type : String) (document_id : ℕ) (mutate : D → Result D) {db db' : Db D}
        → rebase_digest services document_type document_id mutate db ≡ ok db'
        → Step db db'
    elsewhere :
        (delegations : List Delegation) (definitions : List WorkflowDefinition)
        (versions : List WorkflowVersion) (documents : D) {db : Db D}
        → Step db (record db {
          delegations = delegations;
          definitions = definitions;
          versions = versions;
          documents = documents;
        })

  -- Steps, one after another.
  pub data Steps : Db D → Db D → Type 0 where
    no_more : {db : Db D} → Steps db db
    next : {a b c : Db D} → Step a b → Steps b c → Steps a c

  Step-Agree : {a b : Db D} → Step a b → Agree a → Agree b
  Step-Agree (started now i t type id from unused fresh h) c =
      start_approval-Agree services now i t type id from _ unused fresh c h
  Step-Agree (decided now d new task actor body fresh h) c =
      decide-Agree now d new task actor body _ fresh c h
  Step-Agree (withdrawn now d type id actor why h) c =
      withdraw_document-Agree services now d type id actor why _ c h
  Step-Agree (superseded type id h) c = supersede-Agree type id _ c h
  Step-Agree (corrected type id mutate h) c = rebase_digest-Agree type id mutate _ c h
  Step-Agree (elsewhere _ _ _ _) c = c

  Steps-Agree : {a b : Db D} → Steps a b → Agree a → Agree b
  Steps-Agree no_more c = c
  Steps-Agree (next s rest) c = Steps-Agree rest (Step-Agree s c)

  empty-Agree : (db : Db D) → db.instances ≡ [] → db.tasks ≡ [] → Agree db
  empty-Agree db no_instances no_tasks = record {
    keys = record {
      instance_ids = λ i j h k e. absurd (rw (no_instances) at h);
      running = λ i j h k e. absurd (rw (no_instances) at h);
      task_ids = λ t u h k e. absurd (rw (no_tasks) at h);
      nodes = λ t u h k e. absurd (rw (no_tasks) at h);
    };
    placed = λ t h o. absurd (rw (no_tasks) at h);
    staffed = λ i h r. absurd (rw (no_instances) at h);
  }

  -- In tables that steps of the approvals have brought about from empty ones, in any order and with
  -- any changes of the documents, workflows and delegations between them, new rows under unused
  -- numbers, an open task stands at the
  -- current node of a running instance, every running instance has an open task at its current node,
  -- two tasks of an instance never have the same node, and no document has two running instances.
  pub Steps-Consistent :
      (a b : Db D) → a.instances ≡ [] → a.tasks ≡ [] → Steps a b → Consistent b.instances b.tasks
  Steps-Consistent a b no_instances no_tasks s = Steps-Agree s (empty-Agree a no_instances no_tasks)
