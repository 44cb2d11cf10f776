-- ===== src/Ledger/Postings/Reversal.antt =====
-- What `reverse_entry` (apps/api/src/flo/modules/budget/postings.py) does to the balances and the rows.
use mathlib.Core.Path.{subst}
use xlr8_flo.Common.{
  some-injective, ℕ, ◌≡◌, refl, sym, ap, ◌∙◌, ◌⊎◌, inl, inr, Bool, true, false, Option, none, some,
  [], ◌∷◌, ◌++◌, if◌then◌else◌, arith, ◌==◌, ==_iff, find, find_sound, find-append_some,
  find-append_none,
}
use xlr8_flo.Common.Int.{ℤ, neg, ◌+ℤ◌, ◌-ℤ◌, add-neg, add-zero}
use xlr8_flo.Common.Equality.{◌===◌, ===_refl, Option_eq, ℕ_eq, String_eq}
use xlr8_flo.Common.Problems.{ok, err, conflict, raise_if, >>=-eq-ok, >>-eq-ok, ok-injective}
use xlr8_flo.Ledger.Types.{LedgerBucket, transfer, reversal, LedgerEntry, LedgerType_eq}
use xlr8_flo.Ledger.Tables.{Db, Balance, balance_of, entry_by_id, entry_by_key, reversal_of}
use xlr8_flo.Ledger.Tables.Totals.{balance_total, Locked, lock_balance-Locked}
use xlr8_flo.Ledger.Constraints.{is_some, Mirrors, row_ok-Mirrors}
use xlr8_flo.Ledger.Post.{post_entry, new_entry}
use xlr8_flo.Ledger.Post.Stages.{post_entry-Accepted}
use xlr8_flo.Ledger.Post.Effect.{share_of, Added, fresh-Posted, Posted-Added}
use xlr8_flo.Ledger.Post.Replay.{row_after_post}
use xlr8_flo.Ledger.Postings.{
  locked_original, original_entry, check_reversible, ReverseRequest, reverse_post, reverse_entry,
}

locked_original-ok :
    (known : Option LedgerEntry) (db : Db) {o : LedgerEntry}
    → locked_original known db ≡ ok o
    → known ≡ some o
unfolding locked_original
locked_original-ok none db h = cc
locked_original-ok (some e) db h = ap some (ok-injective ((>>-eq-ok _ _ _ h).1))

pub original_entry-ok :
    (id : ℕ) (db : Db) {o : LedgerEntry}
    → original_entry id db ≡ ok o
    → entry_by_id (some id) db ≡ some o
unfolding original_entry
original_entry-ok id db h = locked_original-ok (entry_by_id (some id) db) db h

number_of : (id : ℕ) (db : Db) {o : LedgerEntry} → entry_by_id (some id) db ≡ some o → o.id ≡ id
unfolding entry_by_id
number_of id db {o} h = (==_iff o.id id).0 (find_sound (λ e. e.id == id) db.entries h)

share_of-neg :
    (p : ℕ) (k : LedgerBucket) (e o : LedgerEntry)
    → e.bucket ≡ o.bucket
    → e.project_id ≡ o.project_id
    → e.amount ≡ neg o.amount
    → (x : ℤ) → x +ℤ share_of p k e ≡ x -ℤ share_of p k o
share_of-neg p k e o bucket project amount x =
    rw (bucket, project, amount) (ground (arith, add-neg x o.amount, add-zero x))

-- What a successful reversal under a new key has passed.
record Reversed (o : LedgerEntry) (req : ReverseRequest) (db : Db) (e : LedgerEntry) (db' : Db)
    : Type 0 where
  pub found : entry_by_id (some req.entry_id) db ≡ some o
  pub not_transfer : (o.entry_type === transfer) ≡ false
  pub reversible : check_reversible o db ≡ ok tt
  pub posted : post_entry (reverse_post o req) db ≡ ok (e, db')

reverse_entry-Reversed :
    (req : ReverseRequest) (db : Db) {e : LedgerEntry} {db' : Db}
    → entry_by_key req.idempotency_key db ≡ none
    → reverse_entry req db ≡ ok (e, db')
    → (o : LedgerEntry) × Reversed o req db e db'
unfolding reverse_entry
reverse_entry-Reversed req db fresh h =
    let (o, found, h₁) = >>=-eq-ok (original_entry req.entry_id db) _ h in
    let (kind, h₂) = >>-eq-ok _ _ _ h₁ in
    let (_, checked, h₃) =
      >>=-eq-ok
        (if is_some (entry_by_key req.idempotency_key db) then ok tt else check_reversible o db) _
        h₂ in
    (
      o,
      record {
        found = original_entry-ok req.entry_id db found;
        not_transfer = kind;
        reversible =
            ap (λ known. if is_some known then ok tt else check_reversible o db) (sym fresh)
            ∙ checked;
        posted = h₃;
      },
    )

-- The entry of a reversal: the mirror image of its original.
record Undone (o e : LedgerEntry) (db db' : Db) : Type 0 where
  pub added : Added e db db'
  pub link : e.reverses_entry_id ≡ some o.id
  pub bucket : e.bucket ≡ o.bucket
  pub project : e.project_id ≡ o.project_id
  pub amount : e.amount ≡ neg o.amount
  pub first : is_some (reversal_of o.id db) ≡ false
  pub row : (b : Balance) × (balance_of o.project_id db' ≡ some b)

is_some-none : {A : Type 0} (o : Option A) → is_some o ≡ false → o ≡ none
is_some-none none h = refl
is_some-none (some a) h = cc

linked :
    (e o : LedgerEntry) (db : Db)
    → e.reverses_entry_id ≡ some o.id
    → entry_by_id (some o.id) db ≡ some o
    → (e.reverses_entry_id ≡ none)
      ⊎ ((id : ℕ) × (m : LedgerEntry) × (e.reverses_entry_id ≡ some id) × Mirrors e m id db)
    → Mirrors e o o.id db
linked e o db link found (inl free) = cc
linked e o db link found (inr (id, m, other, mirrors)) =
    let number : id ≡ o.id = some-injective (sym other ∙ link) in
    let at_o : Mirrors e m o.id db = subst (λ i. Mirrors e m i db) number mirrors in
    subst (λ x. Mirrors e x o.id db) (some-injective (sym at_o.found ∙ found)) at_o

same_entries :
    {p : ℕ} {db : Db} {b : Balance} {db₁ : Db}
    → Locked p db b db₁
    → (id : Option ℕ) → entry_by_id id db₁ ≡ entry_by_id id db
unfolding entry_by_id
same_entries l none = refl
same_entries l (some id) = ap (find (λ e. e.id == id)) l.entries

same_reversal :
    {p : ℕ} {db : Db} {b : Balance} {db₁ : Db}
    → Locked p db b db₁
    → (id : ℕ) → reversal_of id db₁ ≡ reversal_of id db
unfolding reversal_of
same_reversal l id = ap (find (λ e. e.reverses_entry_id === some id)) l.entries

Reversed-Undone :
    (o : LedgerEntry) (req : ReverseRequest) (db : Db) {e : LedgerEntry} {db' : Db}
    → entry_by_key req.idempotency_key db ≡ none
    → Reversed o req db e db'
    → Undone o e db db'
unfolding reverse_post new_entry
Reversed-Undone o req db {e} {db'} fresh r =
    let post = reverse_post o req in
    let a = post_entry-Accepted post db r.posted in
    let p = fresh-Posted post db fresh a in
    let l = lock_balance-Locked post.project_id db a.locking in
    let link : e.reverses_entry_id ≡ some o.id = ap (λ n. n.links.reverses_entry_id) p.made in
    let found : entry_by_id (some o.id) db ≡ some o =
      ap (λ i. entry_by_id (some i) db) (number_of req.entry_id db r.found) ∙ r.found in
    let m =
      linked e o a.locked link (same_entries l (some o.id) ∙ found)
        (row_ok-Mirrors e a.locked p.row) in
    record {
      added = Posted-Added l p;
      link = link;
      bucket = m.bucket;
      project = m.project;
      amount = m.amount;
      first = ap is_some (sym (same_reversal l o.id)) ∙ m.first;
      row = (_, ap (balance_of o.project_id) p.after ∙ row_after_post l.row p);
    }

-- A successful reversal under a new key of the entry `o` returns an entry that links to `o` and has
-- its bucket and its negated amount; every bucket of every project is left at what it was less what
-- `o` posted to it; and no entry reversed `o` before.
pub reverse_entry-undoes :
    (req : ReverseRequest) (o : LedgerEntry) (db : Db) {e : LedgerEntry} {db' : Db}
    → entry_by_id (some req.entry_id) db ≡ some o
    → entry_by_key req.idempotency_key db ≡ none
    → reverse_entry req db ≡ ok (e, db')
    → (e.reverses_entry_id ≡ some o.id)
      × (e.bucket ≡ o.bucket)
      × (e.amount ≡ neg o.amount)
      × ((p : ℕ) (k : LedgerBucket)
          → balance_total p k db' ≡ balance_total p k db -ℤ share_of p k o)
      × (is_some (reversal_of o.id db) ≡ false)
reverse_entry-undoes req o db {e} {db'} found fresh h =
    let (m, r) = reverse_entry-Reversed req db fresh h in
    let same : m ≡ o = some-injective (sym r.found ∙ found) in
    let u = subst (λ x. Undone x e db db') same (Reversed-Undone m req db fresh r) in
    (
      u.link,
      u.bucket,
      u.amount,
      λ p k.
          u.added.totals p k
          ∙ share_of-neg p k e o u.bucket u.project u.amount (balance_total p k db),
      u.first,
    )

found_alone :
    (id : ℕ) (e : LedgerEntry)
    → e.reverses_entry_id ≡ some id
    → find (λ x. x.reverses_entry_id === some id) (e ∷ []) ≡ some e
unfolding find
found_alone id e link = rw (link, ===_refl (some id))

reversal_found :
    (o e : LedgerEntry) (db db' : Db) → Undone o e db db' → is_some (reversal_of o.id db') ≡ true
unfolding reversal_of find
reversal_found o e db db' u =
    let p : LedgerEntry → Bool = λ x. x.reverses_entry_id === some o.id in
    ap is_some (
      ap (find p) u.added.entries
      ∙ find-append_none p db.entries (e ∷ []) (is_some-none _ u.first)
      ∙ found_alone o.id e u.link)

entry_kept :
    (id : ℕ) (o e : LedgerEntry) (db db' : Db)
    → db'.entries ≡ db.entries ++ e ∷ []
    → entry_by_id (some id) db ≡ some o
    → entry_by_id (some id) db' ≡ some o
unfolding entry_by_id
entry_kept id o e db db' entries found =
    ap (find (λ x. x.id == id)) entries
    ∙ find-append_some (λ x. x.id == id) db.entries (e ∷ []) found

-- The call on an entry that is reversed already.
refused :
    (req : ReverseRequest) (o : LedgerEntry) (db : Db) (b : Balance)
    → entry_by_id (some req.entry_id) db ≡ some o
    → balance_of o.project_id db ≡ some b
    → (o.entry_type === transfer) ≡ false
    → (o.entry_type === reversal) ≡ false
    → entry_by_key req.idempotency_key db ≡ none
    → is_some (reversal_of o.id db) ≡ true
    → reverse_entry req db ≡ err (conflict "entry_already_reversed")
unfolding reverse_entry original_entry locked_original check_reversible raise_if
refused req o db b found row kind other fresh known = rw (found, row, kind, other, fresh, known)

-- An entry is reversed once: after a successful reversal under a new key, a request to reverse the
-- same entry under another key that has no entry is refused as already reversed.
pub reverse_entry-once :
    (req again : ReverseRequest) (db : Db) {e : LedgerEntry} {db' : Db}
    → entry_by_key req.idempotency_key db ≡ none
    → reverse_entry req db ≡ ok (e, db')
    → again.entry_id ≡ req.entry_id
    → entry_by_key again.idempotency_key db' ≡ none
    → reverse_entry again db' ≡ err (conflict "entry_already_reversed")
unfolding check_reversible
reverse_entry-once req again db {e} {db'} fresh h same unused =
    let (o, r) = reverse_entry-Reversed req db fresh h in
    let u = Reversed-Undone o req db fresh r in
    let (b, row) = u.row in
    let (other, _) = >>-eq-ok _ _ _ r.reversible in
    refused again o db' b
      (ap (λ i. entry_by_id (some i) db') same
        ∙ entry_kept req.entry_id o e db db' u.added.entries r.found)
      row r.not_transfer other unused (reversal_found o e db db' u)
