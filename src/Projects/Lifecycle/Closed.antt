-- ===== src/Projects/Lifecycle/Closed.antt =====
-- The commands of the lifecycle, in any order, on a closed project
-- (apps/api/src/flo/modules/projects/lifecycle.py and service.py).
use xlr8_flo.Common.{
  some-injective, ℕ, ◌≡◌, ◌≢◌, refl, sym, ap, ◌∙◌, inl, inr, String, Bool, true, false, not, Option,
  none, some, List, [], ◌∷◌, arith, ◌==◌, ==_iff, find, Bool-cases, not-false,
}
use xlr8_flo.Common.Int.{ℤ}
use xlr8_flo.Common.Equality.{◌===◌}
use xlr8_flo.Common.Problems.{ok, >>=-eq-ok, >>-eq-ok, if-ok, ok-injective}
use xlr8_flo.Ledger.Tables.{ProjectStatus, approval_pending, completed, abandoned}
use xlr8_flo.Projects.Lifecycle.{
  rule_of, ProjectRow, TransitionCreate, Projects, Views, row_of, is_closing, set_status, write,
  IfMatch, locked_row, transition, approval_outcome, abandon, is_open, ProjectStatus_eq,
  raise_first,
}
use xlr8_flo.Projects.Lifecycle.Legal.{transition-Moved, locked_row-ok, row_number}

-- One command of the lifecycle that succeeds.
pub data Step (views : Views) : Projects → Projects → Type 0 where
  by_transition :
      (actor : Option ℕ) (permitted : String → Bool) (id : ℕ) (body : TransitionCreate)
      (m : IfMatch) {db db' : Projects}
      → transition actor permitted views id body m db ≡ ok db'
      → Step views db db'
  by_outcome :
      (actor : Option ℕ) (id : ℕ) (status : ProjectStatus) (reason : Option String)
      {db db' : Projects}
      → approval_outcome actor id status reason db ≡ ok db'
      → Step views db db'
  by_abandon :
      (actor : Option ℕ) (system : Option String) (id : ℕ) (reason : String) (own : ℤ) {done : Bool}
      {db db' : Projects}
      → abandon actor system views id reason own db ≡ ok (done, db')
      → Step views db db'

-- Commands one after another.
pub data Steps (views : Views) : Projects → Projects → Type 0 where
  none_left : {db : Projects} → Steps views db db
  one_more : {a b c : Projects} → Step views a b → Steps views b c → Steps views a c

pub row_of-set_other :
    (q id : ℕ) (to : ProjectStatus) (rows : List ProjectRow)
    → (id == q) ≡ false
    → row_of q (set_status id to rows) ≡ row_of q rows
unfolding row_of set_status find
row_of-set_other q id to [] h = refl
row_of-set_other q id to (r ∷ rs) h = ground (arith, row_of-set_other q id to rs)

distinct : (p c : ProjectRow) → is_closing c.status ≡ true → is_closing p.status ≡ false → p ≢ c
distinct p c closed live same = cc (sym live ∙ ap (λ r. is_closing r.status) same ∙ closed)

-- A write to a row that is not closed leaves the closed rows alone.
write-keeps :
    (actor : Option ℕ) (system : Option String) (body : TransitionCreate) (db : Projects) (id q : ℕ)
    (p c : ProjectRow)
    → row_of id db.rows ≡ some p
    → is_closing p.status ≡ false
    → row_of q db.rows ≡ some c
    → is_closing c.status ≡ true
    → row_of q (write actor system p body db).rows ≡ some c
unfolding write
write-keeps actor system body db id q p c found live kept closed = elim (Bool-cases (p.id == q)) [
  | inl same ↦ absurd (
      distinct p c closed live (
        some-injective (
          sym found
          ∙ ap (λ i. row_of i db.rows) (sym (row_number id db.rows found) ∙ (==_iff p.id q).0 same)
          ∙ kept)))
  | inr other ↦ row_of-set_other q p.id body.to db.rows other ∙ kept
]

ruled_live :
    (from to : ProjectStatus) {r : String × Bool}
    → ◌≡◌ {A = Option (String × Bool)} (rule_of from to) (some r)
    → is_closing from ≡ false
ruled_live completed to h = cc
ruled_live abandoned to h = cc
ruled_live from to h = refl

open_live : (s : ProjectStatus) → not (is_open s) ≡ false → is_closing s ≡ false
open_live completed h = cc
open_live abandoned h = cc
open_live s h = refl

pending_live : (s : ProjectStatus) → (s === approval_pending) ≡ true → is_closing s ≡ false
pending_live completed h = cc
pending_live abandoned h = cc
pending_live s h = refl

-- A closed row of a project.
record Closed (q : ℕ) (c : ProjectRow) (db : Projects) : Type 0 where
  pub kept : row_of q db.rows ≡ some c
  pub closed : is_closing c.status ≡ true

module _ (views : Views) (q : ℕ) (c : ProjectRow) where
  outcome-keeps :
      (actor : Option ℕ) (id : ℕ) (status : ProjectStatus) (reason : Option String)
      {db db' : Projects}
      → approval_outcome actor id status reason db ≡ ok db'
      → Closed q c db
      → row_of q db'.rows ≡ some c
  unfolding approval_outcome
  outcome-keeps actor id status reason {db} h k =
      let (p, found, h₁) = >>=-eq-ok (locked_row (row_of id db.rows)) _ h in
      let (pending, h₂) = >>-eq-ok _ _ _ h₁ in
      ap (λ d. row_of q d.rows) (sym (ok-injective h₂))
      ∙ write-keeps actor none _ db id q p c (locked_row-ok _ found)
          (pending_live p.status (not-false _ pending)) k.kept k.closed

  abandon-keeps :
      (actor : Option ℕ) (system : Option String) (id : ℕ) (reason : String) (own : ℤ) {done : Bool}
      {db db' : Projects}
      → abandon actor system views id reason own db ≡ ok (done, db')
      → Closed q c db
      → row_of q db'.rows ≡ some c
  unfolding abandon
  abandon-keeps actor system id reason own {done} {db} {db'} h k =
      let (p, found, h₁) = >>=-eq-ok (locked_row (row_of id db.rows)) _ h in
      elim (if-ok (not (is_open p.status)) (ok (false, db)) _ h₁) [
        | inl (_, h₂) ↦ ap (λ r. row_of q r.1.rows) (sym (ok-injective h₂)) ∙ k.kept
        | inr (live, h₂) ↦
            let (_, _, h₃) = >>=-eq-ok (raise_first _) _ h₂ in
            ap (λ r. row_of q r.1.rows) (sym (ok-injective h₃))
            ∙ write-keeps actor system _ db id q p c (locked_row-ok _ found)
                (open_live p.status live) k.kept k.closed
      ]

  Step-keeps : {db db' : Projects} → Step views db db' → Closed q c db → row_of q db'.rows ≡ some c
  Step-keeps {db} {db'} (by_transition actor permitted id body m h) k =
      let moved = transition-Moved actor permitted views id body m db h in
      ap (λ d. row_of q d.rows) moved.after
      ∙ write-keeps actor none body db id q moved.row c moved.found
          (ruled_live moved.row.status body.to moved.clear.rule) k.kept k.closed
  Step-keeps (by_outcome actor id status reason h) k = outcome-keeps actor id status reason h k
  Step-keeps (by_abandon actor system id reason own h) k =
      abandon-keeps actor system id reason own h k

  -- A project that is completed or abandoned keeps its row, its status and its version included, in
  -- every sequence of transitions, approval outcomes and system abandonments of any projects.
  pub closed-stays :
      {db db' : Projects}
      → Steps views db db'
      → row_of q db.rows ≡ some c
      → is_closing c.status ≡ true
      → row_of q db'.rows ≡ some c
  closed-stays none_left kept closed = kept
  closed-stays (one_more s rest) kept closed =
      closed-stays rest (Step-keeps s (record { kept = kept; closed = closed })) closed
