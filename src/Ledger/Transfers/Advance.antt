-- ===== src/Ledger/Transfers/Advance.antt =====
-- A transfer (apps/api/src/flo/modules/budget/transfers.py) as a chain of calls of `post_entry`.
use mathlib.Core.Path.{subst}
use xlr8_flo.Common.{
  ℕ, ◌≡◌, refl, ap, Bool, true, false, not-false, Option, none, some, List, [], ◌∷◌, ◌++◌, map,
  if◌then◌else◌, String, ◌==◌, ◌&&◌,
}
use xlr8_flo.Common.Int.{pos, sum}
use xlr8_flo.Common.Equality.{◌===◌, ===_sound, ℤ_eq, ℕ_eq, Option_eq, String_eq}
use xlr8_flo.Common.Problems.{ok, >>=-eq-ok, >>-eq-ok, ok-injective}
use xlr8_flo.Ledger.Types.{LedgerEntry}
use xlr8_flo.Ledger.Tables.{Db, Project, JsonValue}
use xlr8_flo.Ledger.Tables.Totals.{Reconciles}
use xlr8_flo.Ledger.Constraints.{is_some}
use xlr8_flo.Ledger.Post.{post_entry}
use xlr8_flo.Ledger.Post.Advance.{
  Advance, Advance-refl, Advance-trans, Advance-elsewhere, post_entry-Advance,
}
use xlr8_flo.Ledger.Paths.{TreePath, path_between}
use xlr8_flo.Ledger.Transfers.{
  TransferRequest, Leg, leg_post, record_evidence, evidence_of, post_leg, post_each, prior_of,
  group_of, post_legs, transfer_audit, transfer_along, transfer, get_project, get_all, locked_ids,
  plan_legs, check_eligible, check_running, running_from, mode_for,
}

record_evidence-Advance :
    (known given : Option String) (id : ℕ) (db : Db)
    → Advance db (record_evidence known given id db)
unfolding record_evidence
record_evidence-Advance none (some ref) id db = Advance-elsewhere db _ refl refl refl
record_evidence-Advance none none id db = Advance-refl db
record_evidence-Advance (some known) given id db = Advance-refl db

post_leg-Advance :
    (req : TransferRequest) (group : ℕ) (allow : Option Bool) (repeated : Bool) (leg : Leg)
    (db : Db) {e : LedgerEntry} {db' : Db}
    → post_leg req group allow repeated leg db ≡ ok (e, db')
    → Advance db db'
unfolding post_leg
post_leg-Advance req group allow repeated leg db {e} {db'} h =
    let (p, posted, h₁) = >>=-eq-ok (post_entry (leg_post req group allow leg) db) _ h in
    let (_, h₂) = >>-eq-ok _ _ _ h₁ in
    subst (Advance db) (ap (λ r. r.1) (ok-injective h₂)) (
      Advance-trans (post_entry-Advance (leg_post req group allow leg) db posted)
        (record_evidence-Advance (evidence_of p.0.id p.1) req.evidence_ref p.0.id p.1))

post_each-Advance :
    (req : TransferRequest) (group : ℕ) (allow : Option Bool) (repeated : Bool) (legs : List Leg)
    (db : Db) {es : List LedgerEntry} {db' : Db}
    → post_each req group allow repeated legs db ≡ ok (es, db')
    → Advance db db'
unfolding post_each
post_each-Advance req group allow repeated [] db h =
    subst (Advance db) (ap (λ r. r.1) (ok-injective h)) (Advance-refl db)
post_each-Advance req group allow repeated (leg ∷ legs) db h =
    let (p, first, h₁) = >>=-eq-ok (post_leg req group allow repeated leg db) _ h in
    let (q, later, h₂) = >>=-eq-ok (post_each req group allow repeated legs p.1) _ h₁ in
    let rest = post_each-Advance req group allow repeated legs p.1 later in
    subst (Advance db) (ap (λ r. r.1) (ok-injective h₂))
      (Advance-trans (post_leg-Advance req group allow repeated leg db first) rest)

-- The entries of a posted group sum to nothing.
pub Balanced : List LedgerEntry → Type 0
Balanced es = sum (map (λ e. e.amount) es) ≡ pos 0

pub post_legs-Advance :
    (req : TransferRequest) (legs : List Leg) (allow : Option Bool) (db : Db)
    {es : List LedgerEntry} {db' : Db}
    → post_legs req legs allow db ≡ ok (es, db')
    → Advance db db' × Balanced es
unfolding post_legs Balanced
post_legs-Advance req legs allow db {es} {db'} h =
    let prior = prior_of req legs db in
    let (p, posted, h₁) =
      >>=-eq-ok (post_each req (group_of prior req.fresh_group) allow (is_some prior) legs db) _
        h in
    let (balanced, h₂) = >>-eq-ok _ _ _ h₁ in
    subst (λ r. Advance db r.1 × (sum (map (λ e. e.amount) r.0) ≡ pos 0)) (ok-injective h₂)
      (
        post_each-Advance req _ allow (is_some prior) legs db posted,
        ===_sound _ _ (not-false _ balanced),
      )

audit-Advance :
    (repeated : Bool) (req : TransferRequest) (group : ℕ) (giving : Project) (db : Db)
    → Advance db (if repeated then db else transfer_audit req group giving db)
unfolding transfer_audit
audit-Advance true req group giving db = Advance-refl db
audit-Advance false req group giving db = Advance-elsewhere db _ refl refl refl

transfer_along-Advance :
    (req : TransferRequest) (siblings : Bool) (path : TreePath) (giving receiving : Project)
    (mode : JsonValue) (db : Db) {es : List LedgerEntry} {db' : Db}
    → transfer_along req siblings path giving receiving mode db ≡ ok (es, db')
    → Advance db db' × Balanced es
unfolding transfer_along
transfer_along-Advance req siblings path giving receiving mode db h =
    let (_, h₁) = >>-eq-ok _ _ _ h in
    let (nodes, _, h₂) = >>=-eq-ok (get_all (locked_ids req path) db) _ h₁ in
    let (legs, _, h₃) =
      >>=-eq-ok (plan_legs nodes path giving.id receiving.id siblings mode req.amount) _ h₂ in
    let prior = prior_of req legs db in
    let (_, _, h₄) =
      >>=-eq-ok
        (if is_some prior
          then ok tt
          else check_eligible req siblings path giving receiving nodes legs db)
        _ h₃ in
    let (_, _, h₅) =
      >>=-eq-ok
        (if is_some prior then ok tt else check_running req.currency (running_from db) legs db) _
        h₄ in
    let (p, posted, h₆) = >>=-eq-ok (post_legs req legs none db) _ h₅ in
    let (advance, balanced) = post_legs-Advance req legs none db posted in
    subst (λ r. Advance db r.1 × Balanced r.0) (ok-injective h₆)
      (
        Advance-trans advance
            (audit-Advance (is_some prior) req (group_of prior req.fresh_group) giving p.1),
        balanced,
      )

pub transfer-Advance :
    (req : TransferRequest) (db : Db) {es : List LedgerEntry} {db' : Db}
    → transfer req db ≡ ok (es, db')
    → Advance db db' × Balanced es
unfolding transfer
transfer-Advance req db h =
    let (_, h₁) = >>-eq-ok _ _ _ h in
    let (giving, _, h₂) = >>=-eq-ok (get_project req.from_project_id db) _ h₁ in
    let (receiving, _, h₃) = >>=-eq-ok (get_project req.to_project_id db) _ h₂ in
    let (path, _, h₄) = >>=-eq-ok (path_between giving.id receiving.id db) _ h₃ in
    let (mode, _, h₅) = >>=-eq-ok (mode_for giving db) _ h₄ in
    transfer_along-Advance req
      (giving.parent_id === receiving.parent_id && giving.depth == receiving.depth) path giving
      receiving mode db h₅

-- Where balances agree with the ledger, a successful transfer keeps them so, returns entries whose
-- amounts sum to nothing, and only appends to the ledger.
pub transfer-keeps :
    (req : TransferRequest) (db : Db) {es : List LedgerEntry} {db' : Db}
    → Reconciles db
    → transfer req db ≡ ok (es, db')
    → Reconciles db'
      × Balanced es
      × ((added : List LedgerEntry) × (db'.entries ≡ db.entries ++ added))
transfer-keeps req db r h =
    let (advance, balanced) = transfer-Advance req db h in
    (advance.reconciles r, balanced, (advance.added, advance.entries))
