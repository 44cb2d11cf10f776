-- ===== src/Ledger/Commands.antt =====
-- The commands of the budget module, one after another: apps/api/src/flo/modules/budget.
use xlr8_flo.Common.{ℕ, ◌≡◌, Option, List, [], ◌++◌, find}
use xlr8_flo.Common.Problems.{ok}
use xlr8_flo.Ledger.Types.{LedgerEntry, LedgerBucket}
use xlr8_flo.Ledger.Tables.{Db, balance_of, sum_where}
use xlr8_flo.Ledger.Tables.Totals.{Reconciles, balance_total, ledger_total}
use xlr8_flo.Ledger.Post.{PostRequest, post_entry}
use xlr8_flo.Ledger.Post.Advance.{Advance, Advance-refl, Advance-trans, post_entry-Advance}
use xlr8_flo.Ledger.Reservations.{FundingRequest, ReleaseRequest, reserve, release_reservation}
use xlr8_flo.Ledger.Reservations.Advance.{reserve-Advance, release_reservation-Advance}
use xlr8_flo.Ledger.Postings.{
  CodeCheck, ReverseRequest, release_commitment, commit, record_actual, reverse_entry,
}
use xlr8_flo.Ledger.Postings.Advance.{
  release_commitment-Advance, commit-Advance, record_actual-Advance, reverse_entry-Advance,
}
use xlr8_flo.Ledger.Transfers.{TransferRequest, transfer}
use xlr8_flo.Ledger.Transfers.Advance.{transfer-Advance}

-- One command that succeeds; one that raises is rolled back and changes nothing.
pub data Command (usable : CodeCheck) : Db → Db → Type 0 where
  post :
      (req : PostRequest) {e : LedgerEntry} {db db' : Db}
      → post_entry req db ≡ ok (e, db')
      → Command usable db db'
  hold :
      (req : FundingRequest) {e : LedgerEntry} {db db' : Db}
      → reserve req db ≡ ok (e, db')
      → Command usable db db'
  release_held :
      (req : ReleaseRequest) {r : Option LedgerEntry} {db db' : Db}
      → release_reservation req db ≡ ok (r, db')
      → Command usable db db'
  release_committed :
      (req : ReleaseRequest) {r : Option LedgerEntry} {db db' : Db}
      → release_commitment req db ≡ ok (r, db')
      → Command usable db db'
  commit_funds :
      (source : Option ℕ) (req : FundingRequest) {e : LedgerEntry} {db db' : Db}
      → commit usable source req db ≡ ok (e, db')
      → Command usable db db'
  spend :
      (source : Option ℕ) (req : FundingRequest) {e : LedgerEntry} {db db' : Db}
      → record_actual usable source req db ≡ ok (e, db')
      → Command usable db db'
  undo :
      (req : ReverseRequest) {e : LedgerEntry} {db db' : Db}
      → reverse_entry req db ≡ ok (e, db')
      → Command usable db db'
  move_funds :
      (req : TransferRequest) {es : List LedgerEntry} {db db' : Db}
      → transfer req db ≡ ok (es, db')
      → Command usable db db'

pub data Commands (usable : CodeCheck) : Db → Db → Type 0 where
  no_more : {db : Db} → Commands usable db db
  next : {a b c : Db} → Command usable a b → Commands usable b c → Commands usable a c

empty-Reconciles : (db : Db) → db.balances ≡ [] → db.entries ≡ [] → Reconciles db
unfolding balance_total ledger_total balance_of find sum_where
empty-Reconciles db balances entries = record { at = λ p k. rw (balances, entries) }

module _ (usable : CodeCheck) where
  Command-Advance : {db db' : Db} → Command usable db db' → Advance db db'
  Command-Advance {db} (post req h) = post_entry-Advance req db h
  Command-Advance {db} (hold req h) = reserve-Advance req db h
  Command-Advance {db} (release_held req h) = release_reservation-Advance req db h
  Command-Advance {db} (release_committed req h) = release_commitment-Advance req db h
  Command-Advance {db} (commit_funds source req h) = commit-Advance usable source req db h
  Command-Advance {db} (spend source req h) = record_actual-Advance usable source req db h
  Command-Advance {db} (undo req h) = reverse_entry-Advance req db h
  Command-Advance {db} (move_funds req h) = (transfer-Advance req db h).0

  pub commands-Advance : {db db' : Db} → Commands usable db db' → Advance db db'
  commands-Advance {db} no_more = Advance-refl db
  commands-Advance (next c rest) = Advance-trans (Command-Advance c) (commands-Advance rest)

  -- Where balances agree with the ledger, any sequence of postings, reservations, releases,
  -- commitments, actuals, reversals and transfers keeps them so, and only appends to the ledger.
  pub commands-keep :
      {db db' : Db}
      → Reconciles db
      → Commands usable db db'
      → Reconciles db' × ((added : List LedgerEntry) × (db'.entries ≡ db.entries ++ added))
  commands-keep r c = let a = commands-Advance c in (a.reconciles r, (a.added, a.entries))

  -- From tables without balances and entries, any sequence of postings, reservations, releases,
  -- commitments, actuals, reversals and transfers leaves every bucket of every project equal to the
  -- sum of its entries in the ledger.
  pub commands-Reconciles :
      {db db' : Db}
      → db.balances ≡ []
      → db.entries ≡ []
      → Commands usable db db'
      → (p : ℕ) (k : LedgerBucket) → balance_total p k db' ≡ ledger_total p k db'
  commands-Reconciles {db} balances entries c p k =
      let r = (commands-Advance c).reconciles (empty-Reconciles db balances entries) in r.at p k
