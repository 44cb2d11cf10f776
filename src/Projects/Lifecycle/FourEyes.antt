-- ===== src/Projects/Lifecycle/FourEyes.antt =====
-- The separation of the one who submits a project from the one who activates it
-- (apps/api/src/flo/modules/projects/lifecycle.py).
use xlr8_flo.Common.{
  some-injective, ℕ, ◌≡◌, ◌≢◌, refl, sym, ap, ◌∙◌, String, Bool, true, false, ◌&&◌, Option, none,
  some, List, ◌∷◌, ◌++◌, ◌==◌, ==_iff, find, any, find-append_none, find_of_any, and_intro,
  if◌then◌else◌, true-ne-false,
}
use mathlib.Core.Path.{subst}
use xlr8_flo.Common.Equality.{◌===◌, ===_refl, ℕ_eq, Option_eq}
use xlr8_flo.Common.Problems.{ok}
use xlr8_flo.Ledger.Tables.{ProjectStatus, approval_pending, active}
use xlr8_flo.Projects.Lifecycle.{
  ProjectRow, TransitionCreate, Projects, Views, StatusEvent, row_of, submitted_by, write, IfMatch,
  transition, ProjectStatus_eq,
}
use xlr8_flo.Projects.Lifecycle.Legal.{transition-Moved, row_number}

pending_active :
    (from to : ProjectStatus) (b : Bool)
    → from ≡ approval_pending
    → to ≡ active
    → (from === approval_pending && to === active && b) ≡ false
    → b ≡ false
pending_active from to b pending target h = rw (pending, target) at h

-- An event that submits a project.
abbrev pub is_submission : ℕ → StatusEvent → Bool
is_submission id e = e.project_id == id && e.to_status === approval_pending

-- The submitter is the actor of the newest submission of the project.
submitted_by-newest :
    (id : ℕ) (later : List StatusEvent) (e : StatusEvent) (earlier : List StatusEvent)
    (actor : Option ℕ)
    → any (is_submission id) later ≡ false
    → is_submission id e ≡ true
    → submitted_by id (later ++ e ∷ earlier) actor ≡ (e.actor_id === actor)
unfolding submitted_by find
submitted_by-newest id later e earlier actor h k =
    let newest : find (is_submission id) (later ++ e ∷ earlier) ≡ some e =
      find-append_none (is_submission id) later (e ∷ earlier)
        (find_of_any (is_submission id) later h)
      ∙ ap (λ b. if b then some e else find (is_submission id) earlier) k in
    ap (λ o. elim o as (λ _. Bool) [ none ↦ false | some s ↦ s.actor_id === actor ]) newest

transition-unsubmitted :
    (actor : Option ℕ) (permitted : String → Bool) (views : Views) (id : ℕ)
    (body : TransitionCreate) (m : IfMatch) (db : Projects) {db' : Projects} (p : ProjectRow)
    → row_of id db.rows ≡ some p
    → p.status ≡ approval_pending
    → body.to ≡ active
    → transition actor permitted views id body m db ≡ ok db'
    → submitted_by id db.events actor ≡ false
transition-unsubmitted actor permitted views id body m db p found pending to h =
    let moved = transition-Moved actor permitted views id body m db h in
    let same : moved.row ≡ p = some-injective (sym moved.found ∙ found) in
    pending_active p.status body.to _ pending to (
      ap
        (λ i. p.status === approval_pending && body.to === active && submitted_by i db.events actor)
        (sym (row_number id db.rows found))
      ∙ subst
          (λ q.
            (q.status === approval_pending
              && body.to === active
              && submitted_by q.id db.events actor)
            ≡ false)
          same moved.clear.by_another)

-- After a user submits a project by `transition`, and while no later event of the log submits it
-- again, that user cannot activate the pending project by `transition`.
pub transition-four_eyes :
    (user other : Option ℕ) (permitted may : String → Bool) (views seen : Views) (id : ℕ)
    (submission activation : TransitionCreate) (m n : IfMatch) (start between : Projects)
    (later : List StatusEvent) {submitted activated : Projects} (p : ProjectRow)
    → submission.to ≡ approval_pending
    → transition user permitted views id submission m start ≡ ok submitted
    → between.events ≡ later ++ submitted.events
    → any (is_submission id) later ≡ false
    → row_of id between.rows ≡ some p
    → p.status ≡ approval_pending
    → activation.to ≡ active
    → transition other may seen id activation n between ≡ ok activated
    → other ≢ user
unfolding write
transition-four_eyes user other permitted may views seen id submission activation m n start between
      later p to h grown unchanged found pending target k same =
    let moved = transition-Moved user permitted views id submission m start h in
    let e : StatusEvent = record {
      project_id = moved.row.id;
      from_status = moved.row.status;
      to_status = submission.to;
      actor_id = user;
      system_actor = none;
      reason = submission.reason;
      override = submission.override;
    } in
    let log : between.events ≡ later ++ e ∷ start.events =
      grown ∙ ap (λ d. later ++ d.events) moved.after in
    let submits : is_submission id e ≡ true =
      and_intro (moved.row.id == id) _
        ((==_iff moved.row.id id).1 (row_number id start.rows moved.found)) (rw to (refl)) in
    let newest : submitted_by id between.events other ≡ (user === other) =
      ap (λ l. submitted_by id l other) log
      ∙ submitted_by-newest id later e start.events other unchanged submits in
    let apart =
      transition-unsubmitted other may seen id activation n between p found pending target k in
    true-ne-false (sym (===_refl user) ∙ ap (λ u. user === u) (sym same) ∙ sym newest ∙ apart)
