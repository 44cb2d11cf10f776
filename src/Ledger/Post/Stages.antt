-- ===== src/Ledger/Post/Stages.antt =====
-- What a successful `post_entry` has passed: the stages, taken apart once for every later proof.
use mathlib.Core.Path.{subst}
use xlr8_flo.Common.{
  ◌≡◌, refl, sym, ap, ◌∙◌, ◌⊎◌, inl, inr, true, false, none, some, if◌then◌else◌, not-false,
  Option-cases,
}
use xlr8_flo.Common.Equality.{◌===◌, String_eq}
use xlr8_flo.Common.Problems.{ok, >>=-eq-ok, >>-eq-ok, ok-injective}
use xlr8_flo.Money.{quantize}
use xlr8_flo.Ledger.Types.{LedgerEntry, Links}
use xlr8_flo.Ledger.Tables.{Db, Balance, entry_by_key, add_to, lock_balance}
use xlr8_flo.Ledger.Constraints.{row_ok, balance_ok}
use xlr8_flo.Ledger.Post.{
  PostRequest, Resolved, clashes, resolve, replay, replay_known, check_bucket, check_period,
  wrong_sign, assert_posting_allowed, check_funds, new_entry, append_entry, insert_entry,
  insert_or_replay, post_new, answer, post_entry,
}

-- A new entry, with every check that it passed.
pub record Posted (req : PostRequest) (b : Balance) (r : Resolved) (db : Db) (e : LedgerEntry)
    (db' : Db) : Type 0 where
  pub fresh : entry_by_key req.idempotency_key db ≡ none
  pub made : e ≡ new_entry req b e.bucket e.amount r.currency db
  pub bucket : check_bucket req.entry_type req.bucket r.bucket ≡ ok e.bucket
  pub currency : (r.currency === b.currency) ≡ true
  pub rounded : quantize r.amount r.currency ≡ ok e.amount
  pub period : check_period req db ≡ ok tt
  pub sign : wrong_sign req.entry_type e.amount ≡ false
  pub allowed : assert_posting_allowed req.project_id req.entry_type e.bucket e.amount db ≡ ok tt
  pub funds : check_funds req.allow_negative b e.bucket e.amount db ≡ ok tt
  pub row : row_ok e db ≡ true
  pub balance : balance_ok (add_to e.bucket e.amount b) ≡ true
  pub after : db' ≡ append_entry e b db

insert_new-ok :
    (n : LedgerEntry) (b : Balance) (db : Db) {e : LedgerEntry} {db' : Db}
    → insert_or_replay none n b db ≡ ok (e, db')
    → (row_ok n db ≡ true)
      × (balance_ok (add_to n.bucket n.amount b) ≡ true)
      × ◌≡◌ {A = LedgerEntry × Db} (e, db') (n, append_entry n b db)
unfolding insert_or_replay
insert_new-ok n b db h =
    let (row, h₁) = >>-eq-ok _ _ _ h in
    let (balance, h₂) = >>-eq-ok _ _ _ h₁ in
    (not-false _ row, not-false _ balance, sym (ok-injective h₂))

-- `post_new` succeeds only through every check, and then appends the entry.
pub post_new-Posted :
    (req : PostRequest) (b : Balance) (r : Resolved) (db : Db) {e : LedgerEntry} {db' : Db}
    → entry_by_key req.idempotency_key db ≡ none
    → post_new req b r db ≡ ok (e, db')
    → Posted req b r db e db'
unfolding post_new insert_entry new_entry
post_new-Posted req b r db {e} {db'} fresh h =
    let (k, bucket, h₁) = >>=-eq-ok (check_bucket req.entry_type req.bucket r.bucket) _ h in
    let (currency, h₂) = >>-eq-ok _ _ _ h₁ in
    let (x, rounded, h₃) = >>=-eq-ok (quantize r.amount r.currency) _ h₂ in
    let (_, period, h₄) = >>=-eq-ok (check_period req db) _ h₃ in
    let (sign, h₅) = >>-eq-ok _ _ _ h₄ in
    let (_, allowed, h₆) =
      >>=-eq-ok (assert_posting_allowed req.project_id req.entry_type k x db) _ h₅ in
    let (_, funds, h₇) = >>=-eq-ok (check_funds req.allow_negative b k x db) _ h₆ in
    let n = new_entry req b k x r.currency db in
    let h₈ : insert_or_replay none n b db ≡ ok (e, db') =
      ap (λ o. insert_or_replay o n b db) (sym fresh) ∙ h₇ in
    let (row, balance, same) = insert_new-ok n b db h₈ in
    subst (λ p. Posted req b r db p.0 p.1) (sym same)
      (record {
        fresh = fresh;
        made = refl;
        bucket = bucket;
        currency = not-false _ currency;
        rounded = rounded;
        period = period;
        sign = sign;
        allowed = allowed;
        funds = funds;
        row = row;
        balance = balance;
        after = refl;
      })

-- A repeated request, which the stored entry of its key answers.
pub record Replayed (req : PostRequest) (r : Resolved) (db : Db) (e : LedgerEntry) (db' : Db)
    : Type 0 where
  pub known : entry_by_key req.idempotency_key db ≡ some e
  pub answered : replay_known e req.links r ≡ ok e
  pub unchanged : db' ≡ db

-- A successful `post_entry`, from the locked balance on.
pub record Accepted (req : PostRequest) (db : Db) (e : LedgerEntry) (db' : Db) : Type 0 where
  pub balance : Balance
  pub locked : Db
  pub resolved : Resolved
  pub locking : lock_balance req.project_id db ≡ ok (balance, locked)
  pub compatible : clashes (entry_by_key req.idempotency_key locked) req.links ≡ false
  pub resolving : resolve req balance (entry_by_key req.idempotency_key locked) locked ≡ ok resolved
  pub outcome : Replayed req resolved locked e db' ⊎ Posted req balance resolved locked e db'

replay-ok :
    (k : LedgerEntry) (links : Links) (r : Resolved) {e : LedgerEntry}
    → replay k links r ≡ ok e
    → k ≡ e
unfolding replay
replay-ok k links r h = ok-injective ((>>-eq-ok _ _ _ h).1)

replay_known-ok :
    (k : LedgerEntry) (links : Links) (r : Resolved) {e : LedgerEntry}
    → replay_known k links r ≡ ok e
    → k ≡ e
unfolding replay_known
replay_known-ok k links r h =
    let (x, _, h₁) =
      >>=-eq-ok (if r.currency === k.currency then quantize r.amount r.currency else ok r.amount) _
        h in
    replay-ok k links _ h₁

answer_known :
    (req : PostRequest) (b : Balance) (k : LedgerEntry) (r : Resolved) (db : Db) {e : LedgerEntry}
    {db' : Db}
    → entry_by_key req.idempotency_key db ≡ some k
    → answer req b (some k) r db ≡ ok (e, db')
    → Replayed req r db e db'
unfolding answer
answer_known req b k r db {e} {db'} known h =
    let (f, answered, h₁) = >>=-eq-ok (replay_known k req.links r) _ h in
    let same : k ≡ f = replay_known-ok k req.links r answered in
    let result : ◌≡◌ {A = LedgerEntry × Db} (f, db) (e, db') = ok-injective h₁ in
    subst (λ p. Replayed req r db p.0 p.1) result
      (subst (λ g. Replayed req r db g db) same
        (record { known = known; answered = answered ∙ ap ok (sym same); unchanged = refl }))

answer_new :
    (req : PostRequest) (b : Balance) (r : Resolved) (db : Db) {e : LedgerEntry} {db' : Db}
    → entry_by_key req.idempotency_key db ≡ none
    → answer req b none r db ≡ ok (e, db')
    → Posted req b r db e db'
unfolding answer
answer_new req b r db fresh h = post_new-Posted req b r db fresh h

outcome_of :
    (req : PostRequest) (b : Balance) (r : Resolved) (db : Db) {e : LedgerEntry} {db' : Db}
    → answer req b (entry_by_key req.idempotency_key db) r db ≡ ok (e, db')
    → Replayed req r db e db' ⊎ Posted req b r db e db'
outcome_of req b r db h = elim (Option-cases (entry_by_key req.idempotency_key db)) [
  | inl fresh ↦ inr (answer_new req b r db fresh (ap (λ o. answer req b o r db) (sym fresh) ∙ h))
  | inr (k, known) ↦
      inl (answer_known req b k r db known (ap (λ o. answer req b o r db) (sym known) ∙ h))
]

-- `post_entry` succeeds in one of two ways: by the stored entry of its key, or by a new one.
pub post_entry-Accepted :
    (req : PostRequest) (db : Db) {e : LedgerEntry} {db' : Db}
    → post_entry req db ≡ ok (e, db')
    → Accepted req db e db'
unfolding post_entry
post_entry-Accepted req db h =
    let (p, locking, h₁) = >>=-eq-ok (lock_balance req.project_id db) _ h in
    let (compatible, h₂) = >>-eq-ok _ _ _ h₁ in
    let (r, resolving, h₃) =
      >>=-eq-ok (resolve req p.0 (entry_by_key req.idempotency_key p.1) p.1) _ h₂ in
    record {
      balance = p.0;
      locked = p.1;
      resolved = r;
      locking = locking;
      compatible = compatible;
      resolving = resolving;
      outcome = outcome_of req p.0 r p.1 h₃;
    }
