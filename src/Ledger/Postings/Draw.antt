-- ===== src/Ledger/Postings/Draw.antt =====
-- What `release_commitment` (apps/api/src/flo/modules/budget/postings.py) takes from what remains of
-- a commitment.
use xlr8_flo.Common.{◌≡◌, sym, ◌∙◌, none, some, some-injective}
use mathlib.Core.Path.{subst}
use xlr8_flo.Common.Int.{pos, ◌+ℤ◌, ◌≤ℤ◌}
use xlr8_flo.Common.Problems.{ok, >>=-eq-ok, >>-eq-ok}
use xlr8_flo.Money.{quantize}
use xlr8_flo.Ledger.Types.{LedgerEntry, committed}
use xlr8_flo.Ledger.Tables.{Db, entry_by_id, entry_by_key, remaining_of}
use xlr8_flo.Ledger.Post.Numbering.{Numbered}
use xlr8_flo.Ledger.Reservations.{ReleaseRequest}
use xlr8_flo.Ledger.Reservations.Draw.{Reduced, release_by_key-Reduced}
use xlr8_flo.Ledger.Postings.{original_entry, release_commitment}
use xlr8_flo.Ledger.Postings.Reversal.{original_entry-ok}

-- A release of a commitment under a new key that returns an entry lowers what remains of the
-- commitment by exactly the amount released, which is not negative, and never below zero. It needs
-- entries numbered by their sequence, and a remainder in whole minor units of the currency.
pub release_commitment-within :
    (req : ReleaseRequest) (o : LedgerEntry) (db : Db) {e : LedgerEntry} {db' : Db}
    → Numbered db
    → entry_by_id (some req.entry_id) db ≡ some o
    → entry_by_key req.idempotency_key db ≡ none
    → quantize (remaining_of o db) o.currency ≡ ok (remaining_of o db)
    → release_commitment req db ≡ ok (some e, db')
    → (remaining_of o db' ≡ remaining_of o db +ℤ e.amount)
      × (e.amount ≤ℤ pos 0)
      × (pos 0 ≤ℤ remaining_of o db')
unfolding release_commitment
release_commitment-within req o db {e} {db'} numbered found fresh whole h =
    let (c, known, h₁) = >>=-eq-ok (original_entry req.entry_id db) _ h in
    let (_, h₂) = >>-eq-ok _ _ _ h₁ in
    let same : o ≡ c = some-injective (sym found ∙ original_entry-ok req.entry_id db known) in
    let r =
      subst (λ x. Reduced x e db db') (sym same)
        (release_by_key-Reduced c committed _ _ req db numbered fresh
          (subst (λ x. quantize (remaining_of x db) x.currency ≡ ok (remaining_of x db)) same whole)
          h₂) in
    (r.exact, r.negative, r.left)
