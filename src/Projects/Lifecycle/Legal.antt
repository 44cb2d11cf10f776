-- ===== src/Projects/Lifecycle/Legal.antt =====
-- What a successful transition of a project has passed
-- (apps/api/src/flo/modules/projects/lifecycle.py).
use mathlib.Core.List.{append-nil}
use xlr8_flo.Common.{
  ℕ, ◌+◌, ◌≤◌, ◌≡◌, refl, sym, ap, ◌∙◌, ◌⊎◌, inl, inr, String, Bool, true, false, ◌&&◌, Option,
  none, some, List, [], ◌∷◌, if◌then◌else◌, arith, ◌==◌, ==_iff, find, find_sound, Bool-cases,
  not-false,
}
use xlr8_flo.Common.Text.{len}
use xlr8_flo.Common.Equality.{◌===◌}
use xlr8_flo.Common.Problems.{Problem, ok, conflict, >>=-eq-ok, >>-eq-ok, ok-injective}
use xlr8_flo.Ledger.Tables.{ProjectStatus, approval_pending, active}
use xlr8_flo.Projects.Lifecycle.{
  rule_of, ProjectRow, Blocked, TransitionCreate, Projects, Views, StatusEvent, row_of,
  holds_anything, override_permission, blocked_by_holdings, when, joined, given, reason_of,
  submitted_by, is_closing, problems_of, evaluate, set_status, write, IfMatch, expected_version,
  head_problem, raise_first, locked_row, transition, ProjectStatus_eq,
}

when-ok :
    (b : Bool) (p : Problem) (rest : List (List Problem))
    → head_problem (joined (when b p ∷ rest)) ≡ ok tt
    → (b ≡ false) × (head_problem (joined rest) ≡ ok tt)
unfolding joined
when-ok true p rest h = cc
when-ok false p rest h = (refl, h)

-- A transition that met no problem.
pub record Clear (actor : Option ℕ) (permitted : String → Bool) (events : List StatusEvent)
    (p : ProjectRow) (b : Blocked) (body : TransitionCreate) : Type 0 where
  pub permission : String
  pub needs_reason : Bool
  pub rule :
      ◌≡◌ {A = Option (String × Bool)} (rule_of p.status body.to) (some (permission, needs_reason))
  pub granted : permitted permission ≡ true
  pub reasoned : (needs_reason && len (reason_of body) == 0) ≡ false
  pub by_another :
      (p.status === approval_pending && body.to === active && submitted_by p.id events actor)
      ≡ false
  pub closing :
      (if is_closing body.to
        then head_problem (given (blocked_by_holdings b body.override permitted (reason_of body)))
        else ok tt)
      ≡ ok tt

if-head :
    (c : Bool) (ps : List Problem)
    → head_problem (joined ((if c then ps else []) ∷ [])) ≡ ok tt
    → (if c then head_problem ps else ok tt) ≡ ok tt
unfolding joined
if-head true ps h = ap head_problem (sym (append-nil ps)) ∙ h
if-head false ps h = refl

abbrev moved : ProjectStatus → Option ProjectRow → Option ProjectRow
moved to none = none
moved to (some r) = some (record r { status = to; version = r.version + 1 })

row_of-set_status :
    (id : ℕ) (to : ProjectStatus) (rows : List ProjectRow) {p : ProjectRow}
    → row_of id rows ≡ some p
    → row_of id (set_status id to rows) ≡ some (record p { status = to; version = p.version + 1 })
unfolding row_of set_status find
row_of-set_status id to [] h = cc
row_of-set_status id to (q ∷ qs) {p} h = elim (Bool-cases (q.id == id)) [
  | inl here ↦ rw (here, here) (ap (moved to) (rw (here) at h))
  | inr there ↦ rw (there, there) (row_of-set_status id to qs (rw (there) at h))
]

pub row_number :
    (id : ℕ) (rows : List ProjectRow) {p : ProjectRow} → row_of id rows ≡ some p → p.id ≡ id
unfolding row_of
row_number id rows {p} h = (==_iff p.id id).0 (find_sound (λ q. q.id == id) rows h)

pub row_of-write :
    (actor : Option ℕ) (system : Option String) (id : ℕ) (p : ProjectRow) (body : TransitionCreate)
    (db : Projects)
    → row_of id db.rows ≡ some p
    → row_of id (write actor system p body db).rows
      ≡ some (record p { status = body.to; version = p.version + 1 })
unfolding write
row_of-write actor system id p body db h =
    ap (λ i. row_of id (set_status i body.to db.rows)) (row_number id db.rows h)
    ∙ row_of-set_status id body.to db.rows h

pub unblocked :
    (b : Blocked) (override : Bool) (permitted : String → Bool) (reason : String)
    → head_problem (given (blocked_by_holdings b override permitted reason)) ≡ ok tt
    → (holds_anything b ≡ false)
      ⊎ ((override ≡ true) × (permitted override_permission ≡ true) × (20 ≤ len reason))
unfolding blocked_by_holdings
unblocked b override permitted reason h = ground arith

pub locked_row-ok :
    (found : Option ProjectRow) {p : ProjectRow} → locked_row found ≡ ok p → found ≡ some p
unfolding locked_row
locked_row-ok none h = cc
locked_row-ok (some q) h = ap some (ok-injective h)

module _ (actor : Option ℕ) (permitted : String → Bool) (views : Views) where
  ruled :
      (events : List StatusEvent) (p : ProjectRow) (b : Blocked) (body : TransitionCreate)
      (rule : Option (String × Bool))
      → rule_of p.status body.to ≡ rule
      → head_problem (elim rule [
        | none ↦ conflict "invalid_transition" ∷ []
        | some r ↦ problems_of actor permitted views events p b body r.0 r.1
      ])
        ≡ ok tt
      → Clear actor permitted events p b body
  unfolding problems_of
  ruled events p b body none same h = cc
  ruled events p b body (some (permission, needs)) same h =
      let (granted, h₁) = when-ok _ _ _ h in
      let (_, h₂) = when-ok _ _ _ h₁ in
      let (reasoned, h₃) = when-ok _ _ _ h₂ in
      let (_, h₄) = when-ok _ _ _ h₃ in
      let (_, h₅) = when-ok _ _ _ h₄ in
      let (by_another, h₆) = when-ok _ _ _ h₅ in
      record {
        permission = permission;
        needs_reason = needs;
        rule = same;
        granted = not-false _ granted;
        reasoned = reasoned;
        by_another = by_another;
        closing = if-head (is_closing body.to) _ h₆;
      }

  evaluate-Clear :
      (events : List StatusEvent) (p : ProjectRow) (b : Blocked) (body : TransitionCreate)
      → raise_first (evaluate actor permitted views events p b body) ≡ ok tt
      → Clear actor permitted events p b body
  unfolding evaluate raise_first
  evaluate-Clear events p b body h = ruled events p b body (rule_of p.status body.to) refl h

  -- A successful transition, with the row that it found.
  pub record Moved (id : ℕ) (body : TransitionCreate) (db db' : Projects) : Type 0 where
    pub row : ProjectRow
    pub found : row_of id db.rows ≡ some row
    pub clear : Clear actor permitted db.events row (views.blocked_of id) body
    pub after : db' ≡ write actor none row body db

  pub transition-Moved :
      (id : ℕ) (body : TransitionCreate) (m : IfMatch) (db : Projects) {db' : Projects}
      → transition actor permitted views id body m db ≡ ok db'
      → Moved id body db db'
  unfolding transition
  transition-Moved id body m db h =
      let (expected, _, h₁) = >>=-eq-ok (expected_version m) _ h in
      let (p, found, h₂) = >>=-eq-ok (locked_row (row_of id db.rows)) _ h₁ in
      let (_, h₃) = >>-eq-ok _ _ _ h₂ in
      let (_, h₄) = >>-eq-ok _ _ _ h₃ in
      let (_, clear, h₅) =
        >>=-eq-ok
          (raise_first (evaluate actor permitted views db.events p (views.blocked_of id) body)) _
          h₄ in
      let (_, _, h₆) =
        >>=-eq-ok (if body.to === approval_pending then views.require_workflow p.bu_id else ok tt) _
          h₅ in
      record {
        row = p;
        found = locked_row-ok (row_of id db.rows) found;
        clear = evaluate-Clear db.events p (views.blocked_of id) body clear;
        after = sym (ok-injective h₆);
      }

  -- A successful transition follows a rule of the table, whose permission the caller has; the row
  -- takes the new status and the next version.
  pub transition-legal :
      (id : ℕ) (body : TransitionCreate) (m : IfMatch) (db : Projects) {db' : Projects}
      → transition actor permitted views id body m db ≡ ok db'
      → (p : ProjectRow) × (row_of id db.rows ≡ some p)
        × (permission : String) × (needs_reason : Bool) × ◌≡◌ {A = Option (String × Bool)}
            (rule_of p.status body.to)
            (some (permission, needs_reason))
        × (permitted permission ≡ true)
        × (row_of id db'.rows ≡ some (record p { status = body.to; version = p.version + 1 }))
  transition-legal id body m db {db'} h =
      let moved = transition-Moved id body m db h in
      let c = moved.clear in
      (
        moved.row,
        moved.found,
        c.permission,
        c.needs_reason,
        c.rule,
        c.granted,
        ap (λ d. row_of id d.rows) moved.after
            ∙ row_of-write actor none id moved.row body db moved.found,
      )

  -- A closing by `transition` has passed the closing rule.
  pub transition-closing :
      (id : ℕ) (body : TransitionCreate) (m : IfMatch) (db : Projects) {db' : Projects}
      → is_closing body.to ≡ true
      → transition actor permitted views id body m db ≡ ok db'
      → (holds_anything (views.blocked_of id) ≡ false)
        ⊎ ((body.override ≡ true)
            × (permitted override_permission ≡ true)
            × (20 ≤ len (reason_of body)))
  transition-closing id body m db closing h =
      let c = (transition-Moved id body m db h).clear in
      unblocked (views.blocked_of id) body.override permitted (reason_of body) (
        ap
          (λ t.
            if t
            then head_problem (
                given (
                  blocked_by_holdings (views.blocked_of id) body.override permitted
                    (reason_of body)))
            else ok tt)
          (sym closing)
        ∙ c.closing)
