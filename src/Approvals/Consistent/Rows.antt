-- ===== src/Approvals/Consistent/Rows.antt =====
-- The whole commands on the tables of instances and tasks: `start` of engine.py, `decide` and
-- `withdraw` of decisions.py, `supersede` and `rebase_digest` of material.py
-- (apps/api/src/flo/modules/approvals).
use xlr8_flo.Common.{
  and_intro, ◌&&◌, true-ne-false, ℕ, ◌≡◌, ◌≢◌, refl, sym, ap, ◌∙◌, ◌⊎◌, inl, inr, String, Bool,
  true, false, ◌&&◌, Option, none, some, List, [], ◌∷◌, ◌++◌, ◌==◌, ==_iff, Bool-cases,
  some-injective, not-true, not-false, find, find_sound,
}
use xlr8_flo.Common.Equality.{String_eq}
use xlr8_flo.Common.Equality.{◌===◌, ===_refl, String_eq}
use xlr8_flo.Common.Problems.{not_found, conflict, ok, >>=-eq-ok, >>-eq-ok}
use xlr8_flo.Common.Membership.{any-In, In, In-snoc, In-left, In-last, unique_snoc, find-In}
use xlr8_flo.Approvals.Tables.{
  Status, Outcome, Instance, is_running, is_approved, Task, Decision, OutcomeContext, Services, Db,
  instance_of, task_of, concerns, latest, later, later_of,
}
use xlr8_flo.Approvals.Members.{adapter_for}
use xlr8_flo.Approvals.Engine.{advance, start_approval, new_instance, route_for, found_or}
use xlr8_flo.Approvals.Decisions.{withdraw_document}
use xlr8_flo.Approvals.Decisions.Decided.{found_or-ok}
use xlr8_flo.Approvals.Consistent.{Ran, BothRunning, Consistent-Almost}
use xlr8_flo.Approvals.Consistent.Commands.{
  Agree, Fresh, Between, finish-Agree, advance_task-Agree, enter-Agree,
}

module _ {D : Type 0} where
  -- What a search by number finds.
  pub found_instance :
      (id : ℕ) (db : Db D) {i : Instance}
      → instance_of id db ≡ some i
      → In i db.instances × (i.id ≡ id)
  unfolding instance_of
  found_instance id db {i} h = (
    find-In (λ (i : Instance). i.id == id) db.instances h,
    (==_iff i.id id).0 (find_sound (λ (i : Instance). i.id == id) db.instances h),
  )

  pub found_task : (id : ℕ) (db : Db D) {t : Task} → task_of id db ≡ some t → In t db.tasks
  unfolding task_of
  found_task id db h = find-In (λ (t : Task). t.id == id) db.tasks h

  -- An instance that does not run has no open task.
  pub idle-Between :
      (i : Instance) (db : Db D)
      → In i db.instances
      → is_running i.status ≡ false
      → Agree db
      → Between i.id db
  idle-Between i db i_in idle c = record {
    almost = Consistent-Almost i.id db.instances db.tasks i i_in refl c;
    shut = λ t t_in own. not-true _ (λ t_open.
        let (j, j_in, p) = c.placed t t_in t_open in
        let same : i ≡ j = c.keys.instance_ids i j i_in j_in (sym own ∙ p.0) in
        true-ne-false (sym p.1 ∙ ap (λ (x : Instance). is_running x.status) (sym same) ∙ idle));
  }

  -- A number that no instance has.
  abbrev pub Unused : ℕ → Db D → Type 0
  Unused id db = (j : Instance) → In j db.instances → j.id ≢ id

  added-Between :
      (i : Instance) (db : Db D)
      → Unused i.id db
      → ((u : Instance) → In u db.instances → BothRunning u i → ⊥)
      → Agree db
      → Between i.id (record db { instances = db.instances ++ i ∷ [] })
  added-Between i db unused alone c = record {
    almost = record {
      keys = record {
        instance_ids =
            unique_snoc (λ (x y : Instance). x.id ≡ y.id) (λ x y h. sym h) i db.instances
              c.keys.instance_ids unused;
        running =
            unique_snoc BothRunning (λ x y r. (r.1, r.0, sym r.2, sym r.3)) i db.instances
              c.keys.running alone;
        task_ids = c.keys.task_ids;
        nodes = c.keys.nodes;
      };
      present = (i, In-last i db.instances, refl);
      placed = λ t h o n.
          let (j, j_in, p) = c.placed t h o in (j, In-left j db.instances (i ∷ []) j_in, p);
      staffed = λ j h r n. elim (In-snoc j i db.instances h) [
        | inl old ↦ c.staffed j old r
        | inr new ↦ absurd (n (ap (λ (x : Instance). x.id) new))
      ];
    };
    shut = λ t t_in own.
        not-true _
          (λ t_open. let (j, j_in, p) = c.placed t t_in t_open in unused j j_in (sym p.0 ∙ own));
  }

-- The later of two is one of them.
later_of_lem :
    (j : Instance) (o : Option Instance) {i : Instance} → later_of j o ≡ i → (i ≡ j) ⊎ (o ≡ some i)
later_of_lem j none h = inl (sym h)
later_of_lem j (some k) h = elim (Bool-cases (later k j)) [
  | inl after ↦ inr (ap some (rw (after) at h))
  | inr before ↦ inl (sym (rw (before) at h))
]

pub latest-In :
    (p : Instance → Bool) (is : List Instance) {i : Instance}
    → latest p is ≡ some i
    → In i is × (p i ≡ true)
unfolding latest
latest-In p [] h = absurd (cc)
latest-In p (j ∷ is) {i} h = elim (Bool-cases (p j)) [
  | inl hit ↦ elim (later_of_lem j (latest p is) (some-injective (rw (hit) at h))) [
    | inl first ↦ (inl first, ap p first ∙ hit)
    | inr rest ↦ let (found, passed) = latest-In p is rest in (inr found, passed)
  ]
  | inr miss ↦ let (found, passed) = latest-In p is (rw (miss) at h) in (inr found, passed)
]

pub approved-not_running : (s : Status) → is_approved s ≡ true → is_running s ≡ false
approved-not_running Status.approved h = refl
approved-not_running Status.running h = cc
approved-not_running Status.rejected h = refl
approved-not_running Status.returned h = refl
approved-not_running Status.withdrawn h = refl
approved-not_running Status.superseded h = refl

module _ {D : Type 0} (services : Services D) where
  pub start_approval-Agree :
      (now instance_id task_id : ℕ) (document_type : String) (document_id : ℕ)
      (resume_from : Option ℕ) (db : Db D) {db' : Db D}
      → Unused instance_id db
      → Fresh task_id db
      → Agree db
      → start_approval services now instance_id task_id document_type document_id resume_from db
        ≡ ok db'
      → Agree db'
  unfolding start_approval
  start_approval-Agree now instance_id task_id document_type document_id resume_from db unused fresh
        c h =
      let prior = latest (concerns document_type document_id) db.instances in
      let (_, h₁) = >>-eq-ok _ _ _ h in
      let (adapter, _, h₂) = >>=-eq-ok (adapter_for services document_type) _ h₁ in
      let (s, _, h₃) = >>=-eq-ok (adapter.snapshot document_id db.documents) _ h₂ in
      let ((v, n, route), _, h₄) =
        >>=-eq-ok (route_for services resume_from prior document_type s db) _ h₃ in
      let (guard, h₅) = >>-eq-ok _ _ _ h₄ in
      let i = new_instance services now instance_id document_type document_id v route s in
      let taken : Instance → Bool =
        λ (u : Instance). concerns document_type document_id u && is_running u.status in
      let alone : (u : Instance) → In u db.instances → BothRunning u i → ⊥ = λ u u_in r.
        true-ne-false (
          sym (
            and_intro _ _
              (and_intro _ _ (ap (λ x. x === document_type) r.2 ∙ ===_refl document_type)
                ((==_iff u.document_id document_id).1 r.3))
              r.0)
          ∙ any-In taken db.instances guard u u_in) in
      let was : Ran i (db.instances ++ i ∷ []) = λ r r_in same.
        elim (In-snoc r i db.instances r_in) [
          | inl old ↦ absurd (unused r old same)
          | inr new ↦ ap (λ (x : Instance). is_running x.status) new
        ] in
      enter-Agree services now task_id i n s _ _ refl fresh was (added-Between i db unused alone c)
        h₅

  pub advance-Agree :
      (now id : ℕ) (i : Instance) (t : Task) (c : OutcomeContext) (ds : List Decision) (db : Db D)
      {db' : Db D}
      → Fresh id db
      → Agree db
      → advance services now id i.id t.id c ds db ≡ ok db'
      → Agree db'
  unfolding advance
  advance-Agree now id i t c ds db fresh agree h =
      let (j, h_j, h₁) = >>=-eq-ok (found_or not_found (instance_of i.id db)) _ h in
      let (u, h_u, h₂) = >>=-eq-ok (found_or not_found (task_of t.id db)) _ h₁ in
      let (same, h₃) = >>-eq-ok _ _ _ h₂ in
      let (j_in, j_id) = found_instance i.id db (found_or-ok not_found (instance_of i.id db) h_j) in
      let u_in = found_task t.id db (found_or-ok not_found (task_of t.id db) h_u) in
      let own = (==_iff u.instance_id i.id).0 (not-false _ same) ∙ sym j_id in
      advance_task-Agree services now id j u c ds db fresh j_in u_in own agree h₃

  pub withdraw_document-Agree :
      (now decision_id : ℕ) (document_type : String) (document_id actor_id : ℕ) (reason : String)
      (db : Db D) {db' : Db D}
      → Agree db
      → withdraw_document services now decision_id document_type document_id actor_id reason db
        ≡ ok db'
      → Agree db'
  unfolding withdraw_document
  withdraw_document-Agree now decision_id document_type document_id actor_id reason db c h =
      let wanted : Instance → Bool =
        λ i. concerns document_type document_id i && is_running i.status in
      let (i, h_i, h₁) =
        >>=-eq-ok (found_or (conflict "task_closed") (find wanted db.instances)) _ h in
      let (adapter, _, h₂) = >>=-eq-ok (adapter_for services document_type) _ h₁ in
      let (s, _, h₃) = >>=-eq-ok (adapter.snapshot document_id db.documents) _ h₂ in
      let i_in =
        find-In wanted db.instances
          (found_or-ok (conflict "task_closed") (find wanted db.instances) h_i) in
      finish-Agree services now i Outcome.withdrawn _ _
        (Consistent-Almost i.id db.instances db.tasks i i_in refl c) h₃
