-- ===== src/Ledger/Post/Replay.antt =====
-- Repeated requests to `post_entry` (apps/api/src/flo/modules/budget/ledger.py).
use mathlib.Core.Path.{subst}
use xlr8_flo.Common.{
  ℕ, ◌≡◌, ◌≢◌, refl, sym, ap, ◌∙◌, inl, inr, true, false, not, ◌&&◌, Option, none, some, [], ◌∷◌,
  ◌==◌, find, find-append_some, find-append_none, Option-cases,
}
use xlr8_flo.Common.Equality.{◌===◌, ===_refl, String_eq, Option_eq, ℤ_eq}
use xlr8_flo.Common.Problems.{ok, raise_if, >>=-eq-ok, >>-eq-ok, ok-injective}
use xlr8_flo.Money.{quantize}
use xlr8_flo.Ledger.Types.{
  LedgerType, LedgerBucket, release, reversal, LedgerEntry, same_links_refl, LedgerBucket_eq,
}
use xlr8_flo.Ledger.Tables.{Db, Balance, balance_of, entry_by_id, entry_by_key, add_to, update_row}
use xlr8_flo.Ledger.Tables.Totals.{
  Locked, lock_balance-Locked, lock_balance_of_row, find-update_row_self, currency-add_to,
}
use xlr8_flo.Ledger.Constraints.{is_some}
use xlr8_flo.Ledger.Post.{
  PostRequest, Resolved, clashes, resolve, resolve_as, reverse_of, replay, replay_known,
  check_bucket, append_entry, new_entry, answer, post_entry,
}
use xlr8_flo.Ledger.Post.Stages.{Posted, post_entry-Accepted}

-- The call at the stored entry of the key.
post_entry_known :
    (req : PostRequest) (b : Balance) (r : Resolved) (db : Db) (e : LedgerEntry)
    → balance_of req.project_id db ≡ some b
    → entry_by_key req.idempotency_key db ≡ some e
    → clashes (some e) req.links ≡ false
    → resolve req b (some e) db ≡ ok r
    → replay_known e req.links r ≡ ok e
    → post_entry req db ≡ ok (e, db)
unfolding post_entry raise_if answer
post_entry_known req b r db e row known compatible resolving answered =
    rw (lock_balance_of_row req.project_id db b row, known, compatible, resolving, answered)

not_found-ne-ok : (req : PostRequest) {r : Resolved} → reverse_of req none ≢ ok r
unfolding reverse_of
not_found-ne-ok req h = cc

not-some : (given : Option LedgerBucket) → (is_some given && not true) ≡ false
not-some none = refl
not-some (some k) = refl

check_bucket-ok :
    (t : LedgerType) (given b : Option LedgerBucket) {k : LedgerBucket}
    → check_bucket t given b ≡ ok k
    → b ≡ some k
unfolding check_bucket
check_bucket-ok release given none h = cc
check_bucket-ok release given (some b) h = ap some (ok-injective ((>>-eq-ok _ _ _ h).1))
check_bucket-ok reversal given none h = cc
check_bucket-ok reversal given (some b) h = ap some (ok-injective h)
check_bucket-ok t given none h = cc
check_bucket-ok t given (some b) h = ap some (ok-injective ((>>-eq-ok _ _ _ h).1))

entry_by_id-append :
    (id : Option ℕ) (e n : LedgerEntry) (b : Balance) (db : Db)
    → entry_by_id id db ≡ some e
    → entry_by_id id (append_entry n b db) ≡ some e
unfolding entry_by_id append_entry
entry_by_id-append none e n b db h = h
entry_by_id-append (some i) e n b db h = find-append_some (λ x. x.id == i) db.entries (n ∷ []) h

reverse_of-append :
    (req : PostRequest) (r : Resolved) (n : LedgerEntry) (c : Balance) (db : Db)
    → reverse_of req (entry_by_id req.reverses_entry_id db) ≡ ok r
    → reverse_of req (entry_by_id req.reverses_entry_id (append_entry n c db)) ≡ ok r
reverse_of-append req r n c db h = elim (Option-cases (entry_by_id req.reverses_entry_id db)) [
  | inl missing ↦ absurd (not_found-ne-ok req (ap (reverse_of req) (sym missing) ∙ h))
  | inr (o, found) ↦
      ap (reverse_of req) (entry_by_id-append req.reverses_entry_id o n c db found)
      ∙ ap (reverse_of req) (sym found)
      ∙ h
]

-- The money of a request is derived the same way once its entry is there.
resolve_as-again :
    (t : LedgerType) (req : PostRequest) (b b' : Balance) (r : Resolved) (n : LedgerEntry)
    (c : Balance) (db : Db)
    → b'.currency ≡ b.currency
    → resolve_as t req b none db ≡ ok r
    → resolve_as t req b' (some n) (append_entry n c db) ≡ ok r
unfolding resolve_as raise_if
resolve_as-again reversal req b b' r n c db same h =
    let (x, known, h₁) = >>=-eq-ok (quantize req.amount b.currency) _ h in
    let (_, h₂) = >>-eq-ok _ _ _ h₁ in
    rw (same, known, not-some req.bucket) (reverse_of-append req r n c db h₂)
resolve_as-again release req b b' r n c db same h = h
resolve_as-again t req b b' r n c db same h = h

-- The stored entry of a posted request passes the comparison of `replay`.
replay_known-Posted :
    {req : PostRequest} {b : Balance} {r : Resolved} {db : Db} {e : LedgerEntry} {db' : Db}
    → Posted req b r db e db'
    → replay_known e req.links r ≡ ok e
unfolding replay_known replay raise_if new_entry
replay_known-Posted {req} {b} {r} {db} {e} p =
    let links : e.links ≡ req.links = ap (λ n. n.links) p.made in
    let currency : e.currency ≡ r.currency = ap (λ n. n.currency) p.made in
    rw (
      currency,
      ===_refl r.currency,
      p.rounded,
      links,
      same_links_refl req.links,
      check_bucket-ok req.entry_type req.bucket r.bucket p.bucket,
      ===_refl e.bucket,
      ===_refl e.amount,
    )

known_after_post :
    {req : PostRequest} {b : Balance} {r : Resolved} {db : Db} {e : LedgerEntry} {db' : Db}
    → Posted req b r db e db'
    → entry_by_key req.idempotency_key (append_entry e b db) ≡ some e
unfolding entry_by_key append_entry find new_entry
known_after_post {req} {b} {r} {db} {e} p =
    find-append_none (λ x. x.idempotency_key === req.idempotency_key) db.entries (e ∷ []) p.fresh
    ∙ rw (ap (λ n. n.idempotency_key) p.made, ===_refl req.idempotency_key)

pub row_after_post :
    {req : PostRequest} {b : Balance} {r : Resolved} {db : Db} {e : LedgerEntry} {db' : Db}
    → balance_of req.project_id db ≡ some b
    → Posted req b r db e db'
    → balance_of req.project_id (append_entry e b db) ≡ some (add_to e.bucket e.amount b)
unfolding balance_of append_entry new_entry
row_after_post {req} {b} {r} {db} {e} row p =
    ap
      (λ i. find (λ c. c.project_id == req.project_id) (update_row i e.bucket e.amount db.balances))
      (ap (λ n. n.links.project_id) p.made)
    ∙ find-update_row_self req.project_id e.bucket e.amount db.balances b row

again_after_post :
    {req : PostRequest} {b : Balance} {r : Resolved} {db db₁ : Db} {e : LedgerEntry} {db' : Db}
    → Locked req.project_id db b db₁
    → clashes none req.links ≡ false
    → resolve req b (entry_by_key req.idempotency_key db₁) db₁ ≡ ok r
    → Posted req b r db₁ e db'
    → post_entry req (append_entry e b db₁) ≡ ok (e, append_entry e b db₁)
unfolding resolve clashes new_entry
again_after_post {req} {b} {r} {db} {db₁} {e} l compatible resolving p =
    post_entry_known req (add_to e.bucket e.amount b) r (append_entry e b db₁) e
      (row_after_post l.row p) (known_after_post p)
      (rw (ap (λ n. n.links) p.made, same_links_refl req.links))
      (resolve_as-again req.entry_type req b (add_to e.bucket e.amount b) r e b db₁
        (currency-add_to e.bucket e.amount b)
        (ap (λ o. resolve_as req.entry_type req b o db₁) (sym p.fresh) ∙ resolving))
      (replay_known-Posted p)

-- A request that succeeded is idempotent: sent again to the tables that it left, it returns the
-- same entry and changes nothing at all.
pub post_entry-idempotent :
    (req : PostRequest) (db : Db) {e : LedgerEntry} {db' : Db}
    → post_entry req db ≡ ok (e, db')
    → post_entry req db' ≡ ok (e, db')
post_entry-idempotent req db {e} {db'} h =
    let a = post_entry-Accepted req db h in
    let l = lock_balance-Locked req.project_id db a.locking in
    elim a.outcome [
      | inl p ↦
          subst (λ d. post_entry req d ≡ ok (e, d)) (sym p.unchanged)
            (post_entry_known req a.balance a.resolved a.locked e l.row p.known
              (ap (λ o. clashes o req.links) (sym p.known) ∙ a.compatible)
              (ap (λ o. resolve req a.balance o a.locked) (sym p.known) ∙ a.resolving) p.answered)
      | inr p ↦
          subst (λ d. post_entry req d ≡ ok (e, d)) (sym p.after)
            (again_after_post l (ap (λ o. clashes o req.links) (sym p.fresh) ∙ a.compatible)
              a.resolving p)
    ]
