-- ===== src/Ledger/Reservations/Release.antt =====
-- Releases (apps/api/src/flo/modules/budget/reservations.py) against what remains of an entry.
use xlr8_flo.Common.{
  String, ◌≡◌, sym, ap, ◌∙◌, ◌⊎◌, inl, inr, Bool, false, ◌||◌, Option, none, some, arith,
}
use xlr8_flo.Common.Int.{ℤ, pos, ◌≤ℤ◌, ltb_ℤ}
use xlr8_flo.Common.Equality.{◌===◌, ===_sound, ℤ_eq, ℕ_eq, Option_eq}
use xlr8_flo.Common.Problems.{ok, >>=-eq-ok, >>-eq-ok, if-ok, ok-injective}
use xlr8_flo.Ledger.Types.{LedgerBucket, LedgerEntry, LedgerType_eq}
use xlr8_flo.Ledger.Tables.{Db, reversal_of, remaining_of}
use xlr8_flo.Ledger.Constraints.{is_some}
use xlr8_flo.Ledger.Post.{post_entry}
use xlr8_flo.Ledger.Reservations.{
  ReleaseRequest, release_post, post_release, amount_or, release_new,
}

pub post_release-ok :
    (o : LedgerEntry) (k : LedgerBucket) (x : ℤ) (req : ReleaseRequest) (db : Db)
    {r : Option LedgerEntry} {db' : Db}
    → post_release o k x req db ≡ ok (r, db')
    → (e : LedgerEntry) × (post_entry (release_post o k x req) db ≡ ok (e, db')) × (r ≡ some e)
unfolding post_release
post_release-ok o k x req db {r} {db'} h =
    let (p, posted, h₁) = >>=-eq-ok (post_entry (release_post o k x req) db) _ h in
    let same : ◌≡◌ {A = Option LedgerEntry × Db} (some p.0, p.1) (r, db') = ok-injective h₁ in
    (p.0, posted ∙ ap (λ d. ok (p.0, d)) (ap (λ q. q.1) same), sym (ap (λ q. q.0) same))

-- A release under a new key: nothing is left and nothing happens, or an amount is posted that is
-- neither negative nor more than what remains of an entry that is not reversed.
pub record Drawn (o : LedgerEntry) (k : LedgerBucket) (req : ReleaseRequest) (db db' : Db)
    (r : Option LedgerEntry) : Type 0 where
  pub amount : ℤ
  pub entry : LedgerEntry
  pub chosen : amount_or (remaining_of o db) req.amount o.currency ≡ ok amount
  pub live : is_some (reversal_of o.id db) ≡ false
  pub not_negative : pos 0 ≤ℤ amount
  pub within : amount ≤ℤ remaining_of o db
  pub posted : post_entry (release_post o k amount req) db ≡ ok (entry, db')
  pub result : r ≡ some entry

below : (a b : ℤ) → ltb_ℤ a b ≡ false → b ≤ℤ a
below a b h = ground arith

sign_of : (a : ℤ) (g : Bool) → (ltb_ℤ a (pos 0) || g) ≡ false → pos 0 ≤ℤ a
sign_of a g h = ground arith

pub release_new-Drawn :
    (o : LedgerEntry) (k : LedgerBucket) (reversed exceeds : String) (req : ReleaseRequest)
    (db : Db) {r : Option LedgerEntry} {db' : Db}
    → release_new o k reversed exceeds req db ≡ ok (r, db')
    → ((r ≡ none) × (db' ≡ db) × (remaining_of o db ≡ pos 0)) ⊎ Drawn o k req db db' r
unfolding release_new
release_new-Drawn o k reversed exceeds req db {r} {db'} h =
    let (live, h₁) = >>-eq-ok _ _ _ h in
    let (x, chosen, h₂) = >>=-eq-ok (amount_or (remaining_of o db) req.amount o.currency) _ h₁ in
    let (sign, h₃) = >>-eq-ok _ _ _ h₂ in
    elim (if-ok (remaining_of o db === pos 0) (ok (none, db)) _ h₃) [
      | inl (spent, h₄) ↦
          let same : ◌≡◌ {A = Option LedgerEntry × Db} (none, db) (r, db') = ok-injective h₄ in
          inl (sym (ap (λ q. q.0) same), sym (ap (λ q. q.1) same), ===_sound _ _ spent)
      | inr (left, h₄) ↦
          let (within, h₅) = >>-eq-ok _ _ _ h₄ in
          let (e, posted, result) = post_release-ok o k x req db h₅ in
          inr (record {
            amount = x;
            entry = e;
            chosen = chosen;
            live = live;
            not_negative = sign_of x _ sign;
            within = below (remaining_of o db) x within;
            posted = posted;
            result = result;
          })
    ]
