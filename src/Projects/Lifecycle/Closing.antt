-- ===== src/Projects/Lifecycle/Closing.antt =====
-- How a project comes to be closed: the commands of
-- apps/api/src/flo/modules/projects/lifecycle.py and service.py.
use mathlib.Core.Path.{subst}
use xlr8_flo.Common.{
  some-injective, ℕ, ◌≤◌, ◌≡◌, sym, ap, ◌∙◌, ◌⊎◌, inl, inr, String, Bool, true, false, not, Option,
  none, some, arith, ◌==◌, ==_iff, Bool-cases,
}
use xlr8_flo.Common.Text.{len}
use xlr8_flo.Common.Int.{ℤ, pos, ◌-ℤ◌, ◌≤ℤ◌, -ℤ_parts}
use xlr8_flo.Common.Problems.{ok, >>=-eq-ok, >>-eq-ok, if-ok, ok-injective}
use xlr8_flo.Ledger.Tables.{ProjectStatus, active, draft}
use xlr8_flo.Projects.Lifecycle.{
  ProjectRow, TransitionCreate, Projects, Views, Blocked, row_of, is_closing, write, holds_anything,
  override_permission, reason_of, IfMatch, locked_row, transition, approval_outcome, abandon,
  is_open, raise_first,
}
use xlr8_flo.Projects.Lifecycle.Legal.{
  transition-Moved, transition-closing, locked_row-ok, row_number, row_of-write, unblocked,
}
use xlr8_flo.Projects.Lifecycle.Closed.{
  Step, by_transition, by_outcome, by_abandon, row_of-set_other,
}

-- A project holds nothing and has no open document, apart from as many documents as are its own.
abbrev pub Free : Blocked → ℤ → Type 0
Free b own = (b.reserved ≤ℤ pos 0) × (b.committed ≤ℤ pos 0) × (b.open_documents ≤ℤ own)

holds_anything-Free : (b : Blocked) → holds_anything b ≡ false → Free b (pos 0)
unfolding holds_anything
holds_anything-Free b h = (ground arith, ground arith, ground arith)

less_own :
    (b : Blocked) (own : ℤ)
    → Free (record b { open_documents = b.open_documents -ℤ own }) (pos 0)
    → Free b own
less_own b own (reserved, committed, rest) =
    (reserved, committed, omega (arith, rest, -ℤ_parts b.open_documents own))

-- A write that closes a project is to its row, with a status that closes.
write-closing :
    (actor : Option ℕ) (system : Option String) (body : TransitionCreate) (db : Projects) (id q : ℕ)
    (r p p' : ProjectRow)
    → row_of id db.rows ≡ some r
    → row_of q db.rows ≡ some p
    → is_closing p.status ≡ false
    → row_of q (write actor system r body db).rows ≡ some p'
    → is_closing p'.status ≡ true
    → (id ≡ q) × (is_closing body.to ≡ true)
unfolding write
write-closing actor system body db id q r p p' found kept live after closed =
    elim (Bool-cases (r.id == q)) [
      | inl same ↦
          let here : id ≡ q = sym (row_number id db.rows found) ∙ (==_iff r.id q).0 same in
          let written = row_of-write actor system id r body db found in
          (
            here,
            ap (λ s. is_closing s.status)
                  (some-injective (
                    sym written
                    ∙ ap (λ i. row_of i (write actor system r body db).rows) here
                    ∙ after))
                ∙ closed,
          )
      | inr other ↦
          let same : p ≡ p' =
            some-injective
              (sym kept ∙ sym (row_of-set_other q r.id body.to db.rows other) ∙ after) in
          absurd (cc (sym live ∙ ap (λ s. is_closing s.status) same ∙ closed))
    ]

module _ {views : Views} where
  -- An outcome of an approval is that of the adapter: active or draft.
  abbrev pub FromAdapter : {db db' : Projects} → Step views db db' → Type 0
  FromAdapter (by_outcome actor id status reason h) = (status ≡ active) ⊎ (status ≡ draft)
  FromAdapter (by_transition actor permitted id body m h) = Unit
  FromAdapter (by_abandon actor system id reason own h) = Unit

  -- The open documents that a command leaves out of the closing rule.
  abbrev pub own_documents : {db db' : Projects} → Step views db db' → ℤ
  own_documents (by_abandon actor system id reason own h) = own
  own_documents (by_transition actor permitted id body m h) = pos 0
  own_documents (by_outcome actor id status reason h) = pos 0

  -- A transition that overrides the closing rule, by a caller with the permission and a reason of at
  -- least twenty characters.
  abbrev pub Overridden : {db db' : Projects} → Step views db db' → Type 0
  Overridden (by_transition actor permitted id body m h) =
      (body.override ≡ true) × (permitted override_permission ≡ true) × (20 ≤ len (reason_of body))
  Overridden (by_outcome actor id status reason h) = ⊥
  Overridden (by_abandon actor system id reason own h) = ⊥

module _ (views : Views) (q : ℕ) (p p' : ProjectRow) where
  -- The row of the project, not closed before a command and closed after it.
  record Closes (db db' : Projects) : Type 0 where
    pub kept : row_of q db.rows ≡ some p
    pub live : is_closing p.status ≡ false
    pub after : row_of q db'.rows ≡ some p'
    pub closed : is_closing p'.status ≡ true

  -- A command whose tables are those of a write closes the project of the write.
  closes :
      (actor : Option ℕ) (system : Option String) (body : TransitionCreate) (id : ℕ)
      (r : ProjectRow) {db db' : Projects}
      → row_of id db.rows ≡ some r
      → db' ≡ write actor system r body db
      → Closes db db'
      → (id ≡ q) × (is_closing body.to ≡ true)
  closes actor system body id r {db} found same k =
      write-closing actor system body db id q r p p' found k.kept k.live
        (ap (λ d. row_of q d.rows) (sym same) ∙ k.after) k.closed

  transition-Free :
      (actor : Option ℕ) (permitted : String → Bool) (id : ℕ) (body : TransitionCreate)
      (m : IfMatch) {db db' : Projects}
      → transition actor permitted views id body m db ≡ ok db'
      → Closes db db'
      → Free (views.blocked_of q) (pos 0)
        ⊎ ((body.override ≡ true)
            × (permitted override_permission ≡ true)
            × (20 ≤ len (reason_of body)))
  transition-Free actor permitted id body m {db} h k =
      let moved = transition-Moved actor permitted views id body m db h in
      let (here, closing) = closes actor none body id moved.row moved.found moved.after k in
      elim (transition-closing actor permitted views id body m db closing h) [
        | inl nothing ↦
            inl
              (subst (λ i. Free (views.blocked_of i) (pos 0)) here (holds_anything-Free _ nothing))
        | inr overridden ↦ inr overridden
      ]

  outcome-open :
      (actor : Option ℕ) (id : ℕ) (status : ProjectStatus) (reason : Option String)
      {db db' : Projects}
      → approval_outcome actor id status reason db ≡ ok db'
      → Closes db db'
      → is_closing status ≡ true
  unfolding approval_outcome
  outcome-open actor id status reason {db} h k =
      let (r, found, h₁) = >>=-eq-ok (locked_row (row_of id db.rows)) _ h in
      let (_, h₂) = >>-eq-ok _ _ _ h₁ in
      (closes actor none _ id r (locked_row-ok _ found) (sym (ok-injective h₂)) k).1

  abandon-Free :
      (actor : Option ℕ) (system : Option String) (id : ℕ) (reason : String) (own : ℤ) {done : Bool}
      {db db' : Projects}
      → abandon actor system views id reason own db ≡ ok (done, db')
      → Closes db db'
      → Free (views.blocked_of q) own
  unfolding abandon raise_first
  abandon-Free actor system id reason own {done} {db} {db'} h k =
      let (r, found, h₁) = >>=-eq-ok (locked_row (row_of id db.rows)) _ h in
      let there = locked_row-ok _ found in
      elim (if-ok (not (is_open r.status)) (ok (false, db)) _ h₁) [
        | inl (_, h₂) ↦
            let same : p ≡ p' =
              some-injective
                (sym k.kept ∙ ap (λ o. row_of q o.1.rows) (ok-injective h₂) ∙ k.after) in
            absurd (cc (sym k.live ∙ ap (λ s. is_closing s.status) same ∙ k.closed))
        | inr (live, h₂) ↦
            let (_, clear, h₃) = >>=-eq-ok (raise_first _) _ h₂ in
            let (here, _) =
              closes actor system _ id r there (ap (λ o. o.1) (sym (ok-injective h₃))) k in
            elim (unblocked _ false (λ _. false) "" clear) [
              | inl nothing ↦
                  subst (λ i. Free (views.blocked_of i) own) here
                    (less_own (views.blocked_of id) own (holds_anything-Free _ nothing))
              | inr never ↦ absurd (cc (never.0))
            ]
      ]

  -- A command that closes a project finds it without holdings and without open documents, apart from
  -- as many as the system's abandonment leaves out, or is a transition that overrides: its caller has
  -- the permission and gives a reason of at least twenty characters. The commands are `transition`,
  -- `approval_outcome` to active or draft, and `abandon`.
  pub Step-closing :
      {db db' : Projects} (s : Step views db db')
      → FromAdapter s
      → row_of q db.rows ≡ some p
      → is_closing p.status ≡ false
      → row_of q db'.rows ≡ some p'
      → is_closing p'.status ≡ true
      → Free (views.blocked_of q) (own_documents s) ⊎ Overridden s
  Step-closing (by_transition actor permitted id body m h) _ kept live after closed =
      transition-Free actor permitted id body m h
        (record { kept = kept; live = live; after = after; closed = closed })
  Step-closing (by_outcome actor id status reason h) only kept live after closed =
      let closing =
        outcome-open actor id status reason h
          (record { kept = kept; live = live; after = after; closed = closed }) in
      elim only [
        | inl is_active ↦ absurd (cc (sym closing ∙ ap is_closing is_active))
        | inr is_draft ↦ absurd (cc (sym closing ∙ ap is_closing is_draft))
      ]
  Step-closing (by_abandon actor system id reason own h) _ kept live after closed = inl (
      abandon-Free actor system id reason own h
        (record { kept = kept; live = live; after = after; closed = closed }))
