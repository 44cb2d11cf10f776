-- ===== src/Ledger/Post/Effect.antt =====
-- What a successful `post_entry` does to the entries and to the balances.
use xlr8_flo.Common.{
  ℕ, suc, ◌≡◌, ◌≢◌, sym, ap, ◌∙◌, ◌⊎◌, inl, inr, Option, none, some, [], ◌∷◌, ◌++◌, if◌then◌else◌,
}
use xlr8_flo.Common.Int.{ℤ, pos, ◌+ℤ◌}
use xlr8_flo.Common.{find}
use xlr8_flo.Common.Equality.{◌===◌, String_eq}
use xlr8_flo.Ledger.Tables.{entry_by_key}
use xlr8_flo.Common.Problems.{ok}
use xlr8_flo.Ledger.Types.{LedgerBucket, LedgerEntry}
use xlr8_flo.Ledger.Tables.{Db, Balance, balance_of, sum_where}
use xlr8_flo.Ledger.Tables.Totals.{
  balance_total, ledger_total, posts_to, Reconciles, Locked, lock_balance-Locked, held-update_row,
  sum_where-append, sum_where-one,
}
use xlr8_flo.Ledger.Post.{PostRequest, Resolved, new_entry, append_entry, post_entry}
use xlr8_flo.Ledger.Post.Stages.{Accepted, Posted, Replayed, post_entry-Accepted}

-- The amount that an entry adds to a bucket of a project.
abbrev pub share_of : ℕ → LedgerBucket → LedgerEntry → ℤ
share_of p k e = if posts_to p k e then e.amount else pos 0

module _ (e : LedgerEntry) (b : Balance) (db : Db) where
  balance_total-append_entry :
      balance_of e.project_id db ≡ some b
      → (p : ℕ) (k : LedgerBucket)
      → balance_total p k (append_entry e b db) ≡ balance_total p k db +ℤ share_of p k e
  unfolding balance_total balance_of append_entry
  balance_total-append_entry row p k =
      held-update_row p e.project_id k e.bucket e.amount db.balances b row

  ledger_total-append_entry :
      (p : ℕ) (k : LedgerBucket)
      → ledger_total p k (append_entry e b db) ≡ ledger_total p k db +ℤ share_of p k e
  unfolding ledger_total append_entry
  ledger_total-append_entry p k =
      sum_where-append (posts_to p k) db.entries (e ∷ [])
      ∙ ap (λ x. ledger_total p k db +ℤ x) (sum_where-one (posts_to p k) e)

-- A call that leaves the entries and every bucket as they were.
pub record Kept (db db' : Db) : Type 0 where
  pub entries : db'.entries ≡ db.entries
  pub totals : (p : ℕ) (k : LedgerBucket) → balance_total p k db' ≡ balance_total p k db

-- A call that appends one entry, and adds its amount to its own bucket and to no other.
pub record Added (e : LedgerEntry) (db db' : Db) : Type 0 where
  pub entries : db'.entries ≡ db.entries ++ e ∷ []
  pub number : e.id ≡ db.next_id
  pub next_number : db'.next_id ≡ suc db.next_id
  pub totals :
      (p : ℕ) (k : LedgerBucket) → balance_total p k db' ≡ balance_total p k db +ℤ share_of p k e

Kept-Reconciles : {db db' : Db} → Kept db db' → Reconciles db → Reconciles db'
unfolding ledger_total
Kept-Reconciles c h = record {
  at = λ p k. c.totals p k ∙ h.at p k ∙ ap (sum_where (posts_to p k)) (sym c.entries);
}

Added-Reconciles : {e : LedgerEntry} {db db' : Db} → Added e db db' → Reconciles db → Reconciles db'
unfolding ledger_total
Added-Reconciles {e} {db} c h = record {
  at = λ p k.
      c.totals p k
      ∙ ap (λ x. x +ℤ share_of p k e) (h.at p k)
      ∙ sym (
          ap (sum_where (posts_to p k)) c.entries
          ∙ sum_where-append (posts_to p k) db.entries (e ∷ [])
          ∙ ap (λ x. ledger_total p k db +ℤ x) (sum_where-one (posts_to p k) e));
}

-- The balance row that a new entry updates is the one that was locked for its project.
pub Posted-Added :
    {req : PostRequest} {r : Resolved} {b : Balance} {db db₁ : Db} {e : LedgerEntry} {db' : Db}
    → Locked req.project_id db b db₁
    → Posted req b r db₁ e db'
    → Added e db db'
unfolding append_entry new_entry
Posted-Added {req} {r} {b} {db} {db₁} {e} {db'} l p =
    let project : e.project_id ≡ req.project_id = ap (λ n. n.links.project_id) p.made in
    let row : balance_of e.project_id db₁ ≡ some b = ap (λ i. balance_of i db₁) project ∙ l.row in
    record {
      entries = ap (λ d. d.entries) p.after ∙ ap (λ es. es ++ e ∷ []) l.entries;
      number = ap (λ n. n.id) p.made ∙ l.next_id;
      next_number = ap (λ d. d.next_id) p.after ∙ ap suc l.next_id;
      totals = λ q k.
          ap (balance_total q k) p.after
          ∙ balance_total-append_entry e b db₁ row q k
          ∙ ap (λ x. x +ℤ share_of q k e) (l.totals q k);
    }

Replayed-Kept :
    {req : PostRequest} {r : Resolved} {b : Balance} {db db₁ : Db} {e : LedgerEntry} {db' : Db}
    → Locked req.project_id db b db₁
    → Replayed req r db₁ e db'
    → Kept db db'
Replayed-Kept l p = record {
  entries = ap (λ d. d.entries) p.unchanged ∙ l.entries;
  totals = λ q k. ap (balance_total q k) p.unchanged ∙ l.totals q k;
}

absent-ne-some : {A : Type 0} (o : Option A) {a : A} → o ≡ none → o ≢ some a
absent-ne-some o absent found = cc (sym absent ∙ found)

-- Under a key that has no entry, a successful `post_entry` posts a new one.
pub fresh-Posted :
    (req : PostRequest) (db : Db) {e : LedgerEntry} {db' : Db}
    → entry_by_key req.idempotency_key db ≡ none
    → (a : Accepted req db e db') → Posted req a.balance a.resolved a.locked e db'
unfolding entry_by_key
fresh-Posted req db fresh a = elim a.outcome [
  | inl p ↦
      let l = lock_balance-Locked req.project_id db a.locking in
      absurd (
        absent-ne-some (entry_by_key req.idempotency_key a.locked)
          (ap (find (λ x. x.idempotency_key === req.idempotency_key)) l.entries ∙ fresh) p.known)
  | inr p ↦ p
]

-- A successful call of `post_entry` either leaves the entries and every bucket of every project as
-- they were, or appends the entry that it returns and adds its amount to the one bucket it names.
pub post_entry-effect :
    (req : PostRequest) (db : Db) {e : LedgerEntry} {db' : Db}
    → post_entry req db ≡ ok (e, db')
    → Kept db db' ⊎ Added e db db'
post_entry-effect req db h =
    let a = post_entry-Accepted req db h in
    let l = lock_balance-Locked req.project_id db a.locking in
    elim a.outcome [ inl p ↦ inl (Replayed-Kept l p) | inr p ↦ inr (Posted-Added l p) ]

-- Whatever a successful `post_entry` does, balances that agree with the ledger in every bucket of
-- every project agree with it afterwards.
pub post_entry-Reconciles :
    (req : PostRequest) (db : Db) {e : LedgerEntry} {db' : Db}
    → Reconciles db
    → post_entry req db ≡ ok (e, db')
    → Reconciles db'
post_entry-Reconciles req db r h = elim (post_entry-effect req db h) [
  | inl kept ↦ Kept-Reconciles kept r
  | inr added ↦ Added-Reconciles added r
]
