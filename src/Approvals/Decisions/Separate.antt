-- ===== src/Approvals/Decisions/Separate.antt =====
-- Who makes a decision, where duties are separated
-- (apps/api/src/flo/modules/approvals/decisions.py).
use mathlib.Core.Path.{subst}
use xlr8_flo.Common.{
  ℕ, ◌≡◌, ◌≢◌, refl, sym, ap, ◌∙◌, inl, inr, Bool, true, false, ◌||◌, Option, none, some, [], ◌∷◌,
  ◌++◌, Bool-cases, Option-cases, some-injective, not-false,
}
use xlr8_flo.Common.Problems.{ok}
use xlr8_flo.Approvals.Tables.{Instance, Task, Decision, Target, Services, Db, instance_of, task_of}
use xlr8_flo.Approvals.Members.{separation, has, Members, stands_in_for}
use xlr8_flo.Approvals.Members.Separation.{
  Separate, effective_members-Separate, delegator_of-unable, has-member,
}
use xlr8_flo.Approvals.Evidence.{user_of}
use xlr8_flo.Approvals.Decisions.{principal_of, acting_for, decision_row, decide}
use xlr8_flo.Approvals.Writes.{DecisionWrite, is_some}
use xlr8_flo.Approvals.Decisions.Decided.{decide-Decided}
use xlr8_flo.Approvals.Decisions.Once.{decide-appends}

true-ne-false : ◌≡◌ {A = Bool} true false → ⊥
true-ne-false h = cc

user_principal :
    (o : Option ℕ) (actor : ℕ)
    → principal_of o actor ≡ elim o as (λ x. ℕ) [ none ↦ actor | some u ↦ u ]
user_principal none actor = refl
user_principal (some u) actor = refl

module _ (requester actor : ℕ) (m : Members) (s : Separate requester m) where
  -- The requester is no member, and stands in for none.
  actor-apart : (has actor m.base || is_some (stands_in_for m actor)) ≡ true → actor ≢ requester
  actor-apart allowed same =
      let none_for : stands_in_for m requester ≡ none =
        delegator_of-unable m.able requester m.delegates s.unable in
      let here : (has requester m.base || is_some (stands_in_for m requester)) ≡ true =
        subst (λ a. (has a m.base || is_some (stands_in_for m a)) ≡ true) same allowed in
      let gone : (has requester m.base || is_some (stands_in_for m requester)) ≡ false =
        rw (s.members, none_for) in
      true-ne-false (sym here ∙ gone)

  principal-apart :
      (has actor m.base || is_some (stands_in_for m actor)) ≡ true
      → principal_of (acting_for m actor) actor ≢ requester
  principal-apart allowed = elim (Bool-cases (has actor m.base)) [
    | inl inside ↦ rw (inside) (actor-apart allowed)
    | inr outside ↦ elim (Option-cases (stands_in_for m actor)) [
      | inl alone ↦ rw (outside, alone) (actor-apart allowed)
      | inr (u, found) ↦
          rw (outside, found) (has-member requester u m.base s.members (s.delegators actor u found))
    ]
  ]

module _ {D : Type 0} (services : Services D)
    (separated : (target : Target) → separation services target ≡ ok true) where
  -- Where duties are separated, the decision that is recorded on a task is neither made by the
  -- requester of the approval nor made for the requester.
  pub decide-separates :
      (now id new task_id actor : ℕ) (body : DecisionWrite) (db : Db D) (t : Task) (i : Instance)
      {db' : Db D}
      → task_of task_id db ≡ some t
      → instance_of t.instance_id db ≡ some i
      → decide services now id new task_id actor body db ≡ ok db'
      → (d : Decision) × (db'.decisions ≡ db.decisions ++ d ∷ [])
        × (d.actor_id ≡ actor)
        × (d.actor_id ≢ i.requester_id)
        × (user_of d ≢ i.requester_id)
  decide-separates now id new task_id actor body db t i {db'} t_found i_found h =
      let r = decide-Decided services now id new task_id actor body db h in
      let same_t : r.t ≡ t = some-injective (sym r.task_found ∙ t_found) in
      let same_i : r.i ≡ i =
        some-injective (
          sym r.instance_found
          ∙ ap (λ (x : Task). instance_of x.instance_id db) same_t
          ∙ i_found) in
      let m = r.recorded.m in
      let s =
        effective_members-Separate services separated now r.i r.t r.recorded.snapshot db.delegations
          r.recorded.checked.members in
      let allowed = not-false _ r.recorded.checked.allowed in
      let requester : r.i.requester_id ≡ i.requester_id =
        ap (λ (x : Instance). x.requester_id) same_i in
      (
        decision_row now id actor body r.i r.t r.recorded.snapshot m,
        decide-appends services now id new task_id actor body db r,
        refl,
        λ e. actor-apart r.i.requester_id actor m s allowed (e ∙ sym requester),
        λ e.
            principal-apart r.i.requester_id actor m s allowed
              (user_principal (acting_for m actor) actor ∙ e ∙ sym requester),
      )
