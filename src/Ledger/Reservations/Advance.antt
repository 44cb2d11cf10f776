-- ===== src/Ledger/Reservations/Advance.antt =====
-- The commands of apps/api/src/flo/modules/budget/reservations.py as chains of calls of `post_entry`.
use mathlib.Core.Path.{subst}
use xlr8_flo.Common.{String, ◌≡◌, sym, inl, inr, Option, none, some}
use xlr8_flo.Common.Int.{ℤ}
use xlr8_flo.Common.Problems.{ok, >>=-eq-ok, >>-eq-ok}
use xlr8_flo.Ledger.Types.{LedgerBucket, reservation, LedgerEntry, LedgerType_eq}
use xlr8_flo.Ledger.Tables.{Db}
use xlr8_flo.Ledger.Post.Advance.{Advance, Advance-refl, post_entry-Advance}
use xlr8_flo.Ledger.Reservations.{
  FundingRequest, funding_post, reserve, ReleaseRequest, release_post, post_release, amount_or,
  release_again, release_by_key, release_reserved, release_reservation,
}
use xlr8_flo.Ledger.Reservations.Release.{release_new-Drawn, post_release-ok}

pub reserve-Advance :
    (req : FundingRequest) (db : Db) {e : LedgerEntry} {db' : Db}
    → reserve req db ≡ ok (e, db')
    → Advance db db'
unfolding reserve
reserve-Advance req db h = post_entry-Advance (funding_post reservation none req) db h

post_release-Advance :
    (o : LedgerEntry) (k : LedgerBucket) (x : ℤ) (req : ReleaseRequest) (db : Db)
    {r : Option LedgerEntry} {db' : Db}
    → post_release o k x req db ≡ ok (r, db')
    → Advance db db'
post_release-Advance o k x req db h =
    let (_, posted, _) = post_release-ok o k x req db h in
    post_entry-Advance (release_post o k x req) db posted

pub release_by_key-Advance :
    (known : Option LedgerEntry) (o : LedgerEntry) (k : LedgerBucket) (reversed exceeds : String)
    (req : ReleaseRequest) (db : Db) {r : Option LedgerEntry} {db' : Db}
    → release_by_key known o k reversed exceeds req db ≡ ok (r, db')
    → Advance db db'
unfolding release_by_key release_again
release_by_key-Advance none o k reversed exceeds req db h =
    elim (release_new-Drawn o k reversed exceeds req db h) [
      | inl (_, same, _) ↦ subst (Advance db) (sym same) (Advance-refl db)
      | inr d ↦ post_entry-Advance (release_post o k d.amount req) db d.posted
    ]
release_by_key-Advance (some e) o k reversed exceeds req db h =
    let (x, _, h₁) = >>=-eq-ok (amount_or _ req.amount o.currency) _ h in
    post_release-Advance o k x req db h₁

release_reserved-Advance :
    (found : Option LedgerEntry) (req : ReleaseRequest) (db : Db) {r : Option LedgerEntry}
    {db' : Db}
    → release_reserved found req db ≡ ok (r, db')
    → Advance db db'
unfolding release_reserved
release_reserved-Advance none req db h = cc
release_reserved-Advance (some o) req db h =
    let (_, h₁) = >>-eq-ok _ _ _ h in
    release_by_key-Advance _ o _ _ _ req db ((>>-eq-ok _ _ _ h₁).1)

pub release_reservation-Advance :
    (req : ReleaseRequest) (db : Db) {r : Option LedgerEntry} {db' : Db}
    → release_reservation req db ≡ ok (r, db')
    → Advance db db'
unfolding release_reservation
release_reservation-Advance req db h = release_reserved-Advance _ req db h
