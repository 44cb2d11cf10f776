-- ===== src/Ledger/Postings/Advance.antt =====
-- The commands of apps/api/src/flo/modules/budget/reservations.py and postings.py as chains of calls
-- of `post_entry`.
use mathlib.Core.Path.{subst}
use xlr8_flo.Common.{ℕ, ◌≡◌, ap, inl, inr, Option, none, some, if◌then◌else◌}
use xlr8_flo.Common.Int.{ℤ, pos, ltb_ℤ}
use xlr8_flo.Common.Equality.{◌===◌}
use xlr8_flo.Common.Problems.{Result, ok, >>=-eq-ok, >>-eq-ok, if-ok, ok-injective}
use xlr8_flo.Money.{quantize}
use xlr8_flo.Ledger.Types.{LedgerType, reservation, LedgerEntry, LedgerType_eq}
use xlr8_flo.Ledger.Tables.{Db, entry_by_key, remaining_of}
use xlr8_flo.Ledger.Constraints.{is_some}
use xlr8_flo.Ledger.Post.{post_entry}
use xlr8_flo.Ledger.Post.Advance.{Advance, Advance-refl, Advance-trans, post_entry-Advance}
use xlr8_flo.Ledger.Reservations.{FundingRequest, funding_post, ReleaseRequest}
use xlr8_flo.Ledger.Reservations.Advance.{release_by_key-Advance, release_reservation-Advance}
use xlr8_flo.Ledger.Postings.{
  CodeCheck, original_entry, release_commitment, release_source, expected_source, min_ℤ, convert,
  convert_if, consume_new, consume, commit, record_actual, ReverseRequest, reverse_post,
  check_reversible, reverse_entry,
}

unchanged :
    {A : Type 0} {a r : A} (db : Db) {db' : Db}
    → ◌≡◌ {A = Result (A × Db)} (ok (a, db)) (ok (r, db'))
    → Advance db db'
unchanged {A} {a} {r} db {db'} h =
    subst (Advance db) (ap (λ p. p.1) (ok-injective h)) (Advance-refl db)

pub release_commitment-Advance :
    (req : ReleaseRequest) (db : Db) {r : Option LedgerEntry} {db' : Db}
    → release_commitment req db ≡ ok (r, db')
    → Advance db db'
unfolding release_commitment
release_commitment-Advance req db h =
    let (o, _, h₁) = >>=-eq-ok (original_entry req.entry_id db) _ h in
    let (_, h₂) = >>-eq-ok _ _ _ h₁ in release_by_key-Advance _ o _ _ _ req db h₂

release_source-Advance :
    (t : LedgerType) (id : ℕ) (x : ℤ) (req : FundingRequest) (db : Db) {r : Option LedgerEntry}
    {db' : Db}
    → release_source t id x req db ≡ ok (r, db')
    → Advance db db'
unfolding release_source
release_source-Advance reservation id x req db h = release_reservation-Advance _ db h
release_source-Advance _ id x req db h = release_commitment-Advance _ db h

convert-Advance :
    (t : LedgerType) (source : ℕ) (x : ℤ) (req : FundingRequest) (db : Db) {r : Option LedgerEntry}
    {db' : Db}
    → convert t source x req db ≡ ok (r, db')
    → Advance db db'
unfolding convert
convert-Advance t source x req db h =
    let (o, _, h₁) = >>=-eq-ok (original_entry source db) _ h in
    let (_, h₂) = >>-eq-ok _ _ _ h₁ in
    let (_, h₃) = >>-eq-ok _ _ _ h₂ in
    let (_, h₄) = >>-eq-ok _ _ _ h₃ in
    let (_, h₅) = >>-eq-ok _ _ _ h₄ in
    let (_, h₆) = >>-eq-ok _ _ _ h₅ in
    let released = min_ℤ x (remaining_of o db) in
    elim (if-ok (ltb_ℤ (pos 0) released) (release_source (expected_source t) o.id released req db)
      (ok (none, db)) h₆) [
        | inl (_, h₇) ↦ release_source-Advance (expected_source t) o.id released req db h₇
        | inr (_, h₇) ↦ unchanged db h₇
      ]

convert_if-Advance :
    (t : LedgerType) (source : Option ℕ) (x : ℤ) (req : FundingRequest) (db : Db)
    {r : Option LedgerEntry} {db' : Db}
    → convert_if t source x req db ≡ ok (r, db')
    → Advance db db'
unfolding convert_if
convert_if-Advance t none x req db h = unchanged db h
convert_if-Advance t (some source) x req db h = convert-Advance t source x req db h

consume_new-Advance :
    (usable : CodeCheck) (t : LedgerType) (source : Option ℕ) (req : FundingRequest) (db : Db)
    {e : LedgerEntry} {db' : Db}
    → consume_new usable t source req db ≡ ok (e, db')
    → Advance db db'
unfolding consume_new
consume_new-Advance usable t source req db h =
    let (x, _, h₁) = >>=-eq-ok (quantize req.amount req.currency) _ h in
    let (_, h₂) = >>-eq-ok _ _ _ h₁ in
    let (_, _, h₃) = >>=-eq-ok (if t === LedgerType.actual then _ else ok tt) _ h₂ in
    let (p, converted, h₄) = >>=-eq-ok (convert_if t source x req db) _ h₃ in
    Advance-trans (convert_if-Advance t source x req db converted) (post_entry-Advance _ p.1 h₄)

consume-Advance :
    (usable : CodeCheck) (t : LedgerType) (source : Option ℕ) (req : FundingRequest) (db : Db)
    {e : LedgerEntry} {db' : Db}
    → consume usable t source req db ≡ ok (e, db')
    → Advance db db'
unfolding consume
consume-Advance usable t source req db h =
    let (_, h₁) = >>-eq-ok _ _ _ h in
    elim (if-ok (is_some (entry_by_key req.idempotency_key db))
      (post_entry (funding_post t source req) db) (consume_new usable t source req db) h₁) [
        | inl (_, h₂) ↦ post_entry-Advance (funding_post t source req) db h₂
        | inr (_, h₂) ↦ consume_new-Advance usable t source req db h₂
      ]

-- A successful commitment appends entries only, and keeps balances that agree with the ledger.
pub commit-Advance :
    (usable : CodeCheck) (source : Option ℕ) (req : FundingRequest) (db : Db) {e : LedgerEntry}
    {db' : Db}
    → commit usable source req db ≡ ok (e, db')
    → Advance db db'
unfolding commit
commit-Advance usable source req db h = consume-Advance usable _ source req db h

pub record_actual-Advance :
    (usable : CodeCheck) (source : Option ℕ) (req : FundingRequest) (db : Db) {e : LedgerEntry}
    {db' : Db}
    → record_actual usable source req db ≡ ok (e, db')
    → Advance db db'
unfolding record_actual
record_actual-Advance usable source req db h = consume-Advance usable _ source req db h

pub reverse_entry-Advance :
    (req : ReverseRequest) (db : Db) {e : LedgerEntry} {db' : Db}
    → reverse_entry req db ≡ ok (e, db')
    → Advance db db'
unfolding reverse_entry
reverse_entry-Advance req db h =
    let (o, _, h₁) = >>=-eq-ok (original_entry req.entry_id db) _ h in
    let (_, h₂) = >>-eq-ok _ _ _ h₁ in
    let (_, _, h₃) =
      >>=-eq-ok
        (if is_some (entry_by_key req.idempotency_key db) then ok tt else check_reversible o db) _
        h₂ in
    post_entry-Advance (reverse_post o req) db h₃
