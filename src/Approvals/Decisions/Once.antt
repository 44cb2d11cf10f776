-- ===== src/Approvals/Decisions/Once.antt =====
-- What a command appends to the decisions (apps/api/src/flo/modules/approvals/decisions.py).
use xlr8_flo.Common.{
  ℕ, ◌≡◌, refl, sym, ap, ◌∙◌, inl, inr, Bool, true, false, not, ◌&&◌, ◌||◌, Option, none, some,
  List, [], ◌∷◌, ◌++◌, ◌==◌, any, all, arith, and_intro, and_elim,
}
use xlr8_flo.Common.Problems.{not_found, ok, >>=-eq-ok, >>-eq-ok, ok-injective, if-ok}
use xlr8_flo.Approvals.Graph.{Node, is_end}
use xlr8_flo.Approvals.Tables.{
  Instance, Task, Decision, DecisionOutcome, approve, reject, give_back, comment, withdraw, Status,
  Outcome, Snapshot, OutcomeContext, Services, Db, instance_of, task_of, version_of, is_deciding,
  save, close_task, cancel_tasks,
}
use xlr8_flo.Approvals.Members.{current_members, adapter_for, Members}
use xlr8_flo.Approvals.Engine.{
  found_or, open_task, finish_approved, enter, next_walk, advance_task, advance,
}
use xlr8_flo.Approvals.Evidence.{user_of, on_task, step_complete, is_complete}
use xlr8_flo.Approvals.Decisions.{
  finish, act, decided_by, principal_of, acting_for, decision_row, decide,
}
use xlr8_flo.Approvals.Writes.{DecisionWrite, is_comment}
use xlr8_flo.Approvals.Decisions.Decided.{Decided, decide-Decided}

module _ {D : Type 0} (services : Services D) where
  open_task-keeps :
      (now id : ℕ) (i : Instance) (n : Node) (s : Snapshot) (db : Db D) {db' : Db D}
      → open_task services now id i n s db ≡ ok db'
      → db'.decisions ≡ db.decisions
  unfolding open_task save
  open_task-keeps now id i n s db h =
      let (members, _, h₁) =
        >>=-eq-ok (current_members services i n.id n.allow_repeat n.approvers s) _ h in
      let (_, h₂) = >>-eq-ok _ _ _ h₁ in
      let (_, h₃) = >>-eq-ok _ _ _ h₂ in ap (λ (x : Db D). x.decisions) (sym (ok-injective h₃))

  finish_approved-keeps :
      (now : ℕ) (i : Instance) (c : OutcomeContext) (db : Db D) {db' : Db D}
      → finish_approved services now i c db ≡ ok db'
      → db'.decisions ≡ db.decisions
  unfolding finish_approved save
  finish_approved-keeps now i c db h =
      let (adapter, _, h₁) = >>=-eq-ok (adapter_for services i.document_type) _ h in
      let (_, h₂) = >>-eq-ok _ _ _ h₁ in
      let (s, _, h₃) = >>=-eq-ok (adapter.snapshot i.document_id db.documents) _ h₂ in
      let (documents, _, h₄) =
        >>=-eq-ok (adapter.on_outcome i.document_id Outcome.approved c db.documents) _ h₃ in
      ap (λ (x : Db D). x.decisions) (sym (ok-injective h₄))

  enter-keeps :
      (now id : ℕ) (i : Instance) (n : Node) (s : Snapshot) (c : OutcomeContext) (db : Db D)
      {db' : Db D}
      → enter services now id i n s c db ≡ ok db'
      → db'.decisions ≡ db.decisions
  unfolding enter
  enter-keeps now id i n s c db h = elim (if-ok (is_end n.kind) _ _ h) [
    | inl (_, k) ↦ finish_approved-keeps now i c db k
    | inr (_, k) ↦ open_task-keeps now id i n s db k
  ]

  advance_task-keeps :
      (now id : ℕ) (i : Instance) (t : Task) (c : OutcomeContext) (ds : List Decision) (db : Db D)
      {db' : Db D}
      → advance_task services now id i t c ds db ≡ ok db'
      → db'.decisions ≡ db.decisions
  unfolding advance_task close_task
  advance_task-keeps now id i t c ds db h =
      let (_, h₁) = >>-eq-ok _ _ _ h in
      let (adapter, _, h₂) = >>=-eq-ok (adapter_for services i.document_type) _ h₁ in
      let (s, _, h₃) = >>=-eq-ok (adapter.snapshot i.document_id db.documents) _ h₂ in
      let (v, _, h₄) = >>=-eq-ok (found_or not_found (version_of i.workflow_version_id db)) _ h₃ in
      let (w, _, h₅) = >>=-eq-ok (next_walk services v s i t c ds) _ h₄ in
      enter-keeps now id (record i { route = w.route }) w.node s c
        (close_task now t.id Status.approved db) h₅

  advance-keeps :
      (now id instance_id task_id : ℕ) (c : OutcomeContext) (ds : List Decision) (db : Db D)
      {db' : Db D}
      → advance services now id instance_id task_id c ds db ≡ ok db'
      → db'.decisions ≡ db.decisions
  unfolding advance
  advance-keeps now id instance_id task_id c ds db h =
      let (i, _, h₁) = >>=-eq-ok (found_or not_found (instance_of instance_id db)) _ h in
      let (t, _, h₂) = >>=-eq-ok (found_or not_found (task_of task_id db)) _ h₁ in
      let (_, h₃) = >>-eq-ok _ _ _ h₂ in advance_task-keeps now id i t c ds db h₃

  finish-keeps :
      (now : ℕ) (i : Instance) (o : Outcome) (c : OutcomeContext) (db : Db D) {db' : Db D}
      → finish services now i o c db ≡ ok db'
      → db'.decisions ≡ db.decisions
  unfolding finish save cancel_tasks
  finish-keeps now i o c db h =
      let (adapter, _, h₁) = >>=-eq-ok (adapter_for services i.document_type) _ h in
      let (documents, _, h₂) = >>=-eq-ok (adapter.on_outcome i.document_id o c db.documents) _ h₁ in
      ap (λ (x : Db D). x.decisions) (sym (ok-injective h₂))

  act-keeps :
      (now id : ℕ) (o : DecisionOutcome) (i : Instance) (t : Task) (members : List ℕ)
      (c : OutcomeContext) (db : Db D) {db' : Db D}
      → act services now id o i t members c db ≡ ok db'
      → db'.decisions ≡ db.decisions
  unfolding act close_task
  act-keeps now id approve i t members c db h =
      elim (if-ok (is_complete (step_complete t db.decisions members)) _ _ h) [
        | inl (_, k) ↦ advance-keeps now id i.id t.id c db.decisions db k
        | inr (_, k) ↦ ap (λ (x : Db D). x.decisions) (sym (ok-injective k))
      ]
  act-keeps now id reject i t members c db h = finish-keeps now i Outcome.rejected c _ h
  act-keeps now id give_back i t members c db h = finish-keeps now i Outcome.returned c _ h
  act-keeps now id comment i t members c db h =
      ap (λ (x : Db D). x.decisions) (sym (ok-injective h))
  act-keeps now id withdraw i t members c db h =
      ap (λ (x : Db D). x.decisions) (sym (ok-injective h))

-- Two decisions on one task by one person, or for one person.
abbrev pub clash : Decision → Decision → Bool
clash a b =
    is_deciding a.outcome
    && is_deciding b.outcome
    && elim a.task_id [ none ↦ false | some t ↦ on_task t b ]
    && (a.actor_id == b.actor_id || user_of a == user_of b)

unfoldable pub once : List Decision → Bool
once [] = true
once (d ∷ ds) = all (λ e. not (clash d e)) ds && once ds

all-snoc :
    (p : Decision → Bool) (ds : List Decision) (d : Decision)
    → all p ds ≡ true
    → p d ≡ true
    → all p (ds ++ d ∷ []) ≡ true
unfolding all
all-snoc p [] d h k = and_intro _ _ k refl
all-snoc p (x ∷ xs) d h k = let (a, b) = and_elim (p x) _ h in and_intro _ _ a (all-snoc p xs d b k)

once-snoc :
    (ds : List Decision) (d : Decision)
    → once ds ≡ true
    → all (λ e. not (clash e d)) ds ≡ true
    → once (ds ++ d ∷ []) ≡ true
unfolding once all
once-snoc [] d h k = refl
once-snoc (x ∷ xs) d h k =
    let (a, b) = and_elim (all (λ e. not (clash x e)) xs) _ h in
    let (c, e) = and_elim (not (clash x d)) _ k in
    and_intro _ _ (all-snoc (λ e. not (clash x e)) xs d a c) (once-snoc xs d b e)

-- A row that does not say that the actor or the principal has decided does not clash with a decision
-- of the actor for that principal.
apart :
    (t actor other : ℕ) (te be behalf : Option ℕ) (de dd idle : Bool)
    → (idle && dd) ≡ false
    → (not idle
        && (elim te [ none ↦ false | some x ↦ x == t ]
            && (other == actor
                || other == principal_of behalf actor
                || elim be [ none ↦ false | some u ↦ u == principal_of behalf actor ])
            && de))
      ≡ false
    → not (
        de
        && dd
        && elim te [ none ↦ false | some x ↦ t == x ]
        && (other == actor
            || elim be as (λ x. ℕ) [ none ↦ other | some u ↦ u ]
              == elim behalf as (λ x. ℕ) [ none ↦ actor | some u ↦ u ]))
      ≡ true
apart t actor other none be behalf de dd idle c h = ground arith
apart t actor other (some x) none none de dd idle c h = ground arith
apart t actor other (some x) none (some v) de dd idle c h = ground arith
apart t actor other (some x) (some u) none de dd idle c h = ground arith
apart t actor other (some x) (some u) (some v) de dd idle c h = ground arith

comment_idle : (o : DecisionOutcome) → (is_comment o && is_deciding o) ≡ false
comment_idle approve = refl
comment_idle reject = refl
comment_idle give_back = refl
comment_idle comment = refl
comment_idle withdraw = refl

split_any : (a b c : Bool) → (a && (b || c)) ≡ false → ((a && b) ≡ false) × ((a && c) ≡ false)
split_any a b c h = ground arith

all-apart :
    (now id actor : ℕ) (body : DecisionWrite) (i : Instance) (t : Task) (s : Snapshot) (m : Members)
    (ds : List Decision)
    → (not (is_comment body.outcome)
        && any (decided_by t.id actor (principal_of (acting_for m actor) actor)) ds)
      ≡ false
    → all (λ e. not (clash e (decision_row now id actor body i t s m))) ds ≡ true
unfolding any all
all-apart now id actor body i t s m [] h = refl
all-apart now id actor body i t s m (e ∷ es) h =
    let (first, rest) = split_any (not (is_comment body.outcome)) _ _ h in
    and_intro _ _
      (apart t.id actor e.actor_id e.task_id e.on_behalf_of (acting_for m actor)
        (is_deciding e.outcome) (is_deciding body.outcome) (is_comment body.outcome)
        (comment_idle body.outcome) first)
      (all-apart now id actor body i t s m es rest)

module _ {D : Type 0} (services : Services D) where
  -- The decisions after a decision are those before it and the new one.
  pub decide-appends :
      (now id new task_id actor : ℕ) (body : DecisionWrite) (db : Db D) {db' : Db D}
      (r : Decided services now id new task_id actor body db db')
      → db'.decisions
        ≡ db.decisions
          ++ decision_row now id actor body r.i r.t r.recorded.snapshot r.recorded.m ∷ []
  decide-appends now id new task_id actor body db r =
      act-keeps services now new body.outcome r.i r.t r.recorded.m.base _ _ r.recorded.acted

  -- If no one has decided twice on a task before a decision, for themselves or for another, so it is
  -- after the decision.
  pub decide-once :
      (now id new task_id actor : ℕ) (body : DecisionWrite) (db : Db D) {db' : Db D}
      → once db.decisions ≡ true
      → decide services now id new task_id actor body db ≡ ok db'
      → once db'.decisions ≡ true
  decide-once now id new task_id actor body db before h =
      let r = decide-Decided services now id new task_id actor body db h in
      let d = decision_row now id actor body r.i r.t r.recorded.snapshot r.recorded.m in
      ap once (decide-appends now id new task_id actor body db r)
      ∙ once-snoc db.decisions d before (
          all-apart now id actor body r.i r.t r.recorded.snapshot r.recorded.m db.decisions
            r.recorded.checked.fresh)
