-- ===== src/Ledger/Post/Funds.antt =====
-- The funds check of `post_entry` (apps/api/src/flo/modules/budget/ledger.py).
use mathlib.Core.Path.{subst}
use xlr8_flo.Common.{
  ℕ, ◌≡◌, ◌≢◌, refl, sym, ap, ◌∙◌, ◌⊎◌, inl, inr, Bool, true, false, not, ◌&&◌, Option, none, some,
  arith, not-true,
}
use xlr8_flo.Common.Int.{ℤ, pos, ◌≤ℤ◌, ltb_ℤ, int_laws}
use xlr8_flo.Common.Problems.{ok, ◌>>=◌, >>=-eq-ok, raise_if-ok}
use xlr8_flo.Ledger.Types.{LedgerBucket, allocated, reserved, committed, LedgerEntry}
use xlr8_flo.Ledger.Tables.{Db, Balance, available, balance_of, add_to}
use xlr8_flo.Ledger.Tables.Totals.{lock_balance-Locked, SameElsewhere, lock_balance-funds, funds_of}
use xlr8_flo.Ledger.Settings.{allow_negative_budget, is_true, effective_setting-same}
use xlr8_flo.Ledger.Post.{PostRequest, projected, negative_allowed, check_funds, post_entry}
use xlr8_flo.Ledger.Post.Stages.{post_entry-Accepted}
use xlr8_flo.Ledger.Post.Replay.{row_after_post}

-- The update of the balance row leaves what `projected` foretold.
pub available-add_to :
    (k : LedgerBucket) (x : ℤ) (b : Balance) → available (add_to k x b) ≡ projected b k x
unfolding available projected
available-add_to allocated x b = omega int_laws
available-add_to reserved x b = omega int_laws
available-add_to committed x b = omega int_laws
available-add_to LedgerBucket.actual x b = omega int_laws

negative_allowed-same :
    (allow : Option Bool) (bu : ℕ) (db db' : Db)
    → SameElsewhere db db'
    → negative_allowed allow bu db' ≡ negative_allowed allow bu db
unfolding negative_allowed
negative_allowed-same (some a) bu db db' h = refl
negative_allowed-same none bu db db' h =
    ap (λ r. r >>= λ v. ok (is_true v))
      (effective_setting-same bu allow_negative_budget db db' h.units h.settings)

not-below : (x y : ℤ) → ltb_ℤ x y ≡ false → y ≤ℤ x
not-below x y h = ground arith

both-false :
    (v w : ℤ) (a : Bool)
    → a ≡ false
    → (ltb_ℤ v w && ltb_ℤ v (pos 0) && not a) ≡ false
    → (pos 0 ≤ℤ v) ⊎ (w ≤ℤ v)
both-false v w a refused h = ground arith

check_funds-ok :
    (allow : Option Bool) (b : Balance) (k : LedgerBucket) (x : ℤ) (db : Db)
    → negative_allowed allow b.bu_id db ≢ ok true
    → check_funds allow b k x db ≡ ok tt
    → (pos 0 ≤ℤ projected b k x) ⊎ (available b ≤ℤ projected b k x)
unfolding check_funds
check_funds-ok allow b k x db forbidden h =
    let (a, looked_up, h₁) = >>=-eq-ok (negative_allowed allow b.bu_id db) _ h in
    let refused : a ≡ false = not-true a (λ e. forbidden (looked_up ∙ ap ok e)) in
    both-false (projected b k x) (available b) a refused (raise_if-ok _ _ h₁)

-- Where the request does not allow a negative budget itself and, if it leaves that open, the setting
-- of no unit does, a successful `post_entry` leaves the project with funds that are not negative, or
-- with no less than it had.
pub post_entry-available :
    (req : PostRequest) (db : Db) {e : LedgerEntry} {db' : Db}
    → ((bu : ℕ) → negative_allowed req.allow_negative bu db ≢ ok true)
    → post_entry req db ≡ ok (e, db')
    → (b : Balance) × (balance_of req.project_id db' ≡ some b)
      × ((pos 0 ≤ℤ available b) ⊎ (funds_of (balance_of req.project_id db) ≤ℤ available b))
post_entry-available req db {e} {db'} forbidden h =
    let a = post_entry-Accepted req db h in
    let l = lock_balance-Locked req.project_id db a.locking in
    let (funds, elsewhere) = lock_balance-funds req.project_id db a.locking in
    elim a.outcome [
      | inl p ↦ (
        a.balance,
        ap (balance_of req.project_id) p.unchanged ∙ l.row,
        inr (subst (λ f. f ≤ℤ available a.balance) funds (omega arith)),
      )
      | inr p ↦
          let k = e.bucket in
          let x = e.amount in
          (
            add_to k x a.balance,
            ap (balance_of req.project_id) p.after ∙ row_after_post l.row p,
            rw (available-add_to k x a.balance, ← funds)
                (check_funds-ok req.allow_negative a.balance k x a.locked
                  (λ t. forbidden a.balance.bu_id (
                    sym (
                      negative_allowed-same req.allow_negative a.balance.bu_id db a.locked
                        elsewhere)
                    ∙ t))
                  p.funds),
          )
    ]
