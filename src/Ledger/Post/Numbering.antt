-- ===== src/Ledger/Post/Numbering.antt =====
-- The numbers of the entries: the sequence of `ledger_entry.id`, and the links to earlier rows.
use mathlib.Core.Path.{subst, ap₂}
use xlr8_flo.Common.{
  ℕ, suc, ◌≡◌, refl, sym, ap, ◌∙◌, ◌⊎◌, inl, inr, Bool, true, false, ◌&&◌, Option, none, some, List,
  [], ◌∷◌, arith, ◌==◌, ==_iff, ltb, ltb→lt, lt→ltb, find_sound, all, all-append, all-find,
  and_elim, and_intro,
}
use xlr8_flo.Common.Problems.{ok}
use xlr8_flo.Common.{any}
use xlr8_flo.Common.Equality.{◌===◌, Option_eq, ℕ_eq}
use xlr8_flo.Ledger.Tables.Remaining.{NoneReverses}
use xlr8_flo.Ledger.Types.{LedgerEntry}
use xlr8_flo.Ledger.Tables.{Db, Balance, entry_by_id}
use xlr8_flo.Ledger.Tables.Totals.{Locked, lock_balance-Locked}
use xlr8_flo.Ledger.Constraints.{Mirrors, row_ok-Mirrors}
use xlr8_flo.Ledger.Post.{PostRequest, post_entry, append_entry, new_entry}
use xlr8_flo.Ledger.Post.Stages.{post_entry-Accepted}

abbrev pub below : ℕ → Option ℕ → Bool
below n none = true
below n (some id) = ltb id n

abbrev pub numbered_by : ℕ → LedgerEntry → Bool
numbered_by n e = ltb e.id n && below n e.reverses_entry_id

-- Every number, of an entry and of one that an entry reverses, is one that the sequence has given.
pub record Numbered (db : Db) : Type 0 where
  pub holds : all (numbered_by db.next_id) db.entries ≡ true

numbered_by-suc : (n : ℕ) (e : LedgerEntry) → numbered_by n e ≡ true → numbered_by (suc n) e ≡ true
numbered_by-suc n e h = ground arith

all_numbered-suc :
    (n : ℕ) (es : List LedgerEntry)
    → all (numbered_by n) es ≡ true
    → all (numbered_by (suc n)) es ≡ true
unfolding all
all_numbered-suc n [] h = refl
all_numbered-suc n (e ∷ es) h =
    let (a, b) = and_elim _ _ h in and_intro _ _ (numbered_by-suc n e a) (all_numbered-suc n es b)

found_below :
    (db : Db) (id : ℕ) {o : LedgerEntry}
    → Numbered db
    → entry_by_id (some id) db ≡ some o
    → ltb id db.next_id ≡ true
unfolding entry_by_id
found_below db id {o} n found =
    subst (λ i. ltb i db.next_id ≡ true)
      ((==_iff o.id id).0 (find_sound (λ e. e.id == id) db.entries found))
      ((and_elim _ _
        (all-find (numbered_by db.next_id) (λ e. e.id == id) db.entries n.holds found)).0)

link_below :
    (e : LedgerEntry) (db : Db)
    → Numbered db
    → (e.reverses_entry_id ≡ none)
      ⊎ ((id : ℕ) × (o : LedgerEntry) × (e.reverses_entry_id ≡ some id) × Mirrors e o id db)
    → below (suc db.next_id) e.reverses_entry_id ≡ true
link_below e db n (inl free) = ap (below (suc db.next_id)) free
link_below e db n (inr (id, o, link, m)) =
    ap (below (suc db.next_id)) link
    ∙ lt→ltb id (suc db.next_id) (omega (arith, ltb→lt id db.next_id (found_below db id n m.found)))

below_unequal : (n : ℕ) (r : Option ℕ) → below n r ≡ true → (r === some n) ≡ false
below_unequal n none h = refl
below_unequal n (some id) h = ground arith

next_unlinked :
    (n : ℕ) (es : List LedgerEntry)
    → all (numbered_by n) es ≡ true
    → any (λ l. l.reverses_entry_id === some n) es ≡ false
unfolding all any
next_unlinked n [] h = refl
next_unlinked n (l ∷ es) h =
    let (a, b) = and_elim _ _ h in
    let (_, c) = and_elim _ _ a in rw (below_unequal n l.reverses_entry_id c, next_unlinked n es b)

-- The next number is one that no entry reverses.
pub Numbered-next : (db : Db) → Numbered db → NoneReverses db.next_id db.entries
Numbered-next db n = next_unlinked db.next_id db.entries n.holds

pub Numbered-Locked :
    {p : ℕ} {db : Db} {b : Balance} {db₁ : Db} → Locked p db b db₁ → Numbered db → Numbered db₁
Numbered-Locked l n = record {
  holds = ap₂ (λ i es. all (numbered_by i) es) l.next_id l.entries ∙ n.holds;
}

Numbered-append :
    (e : LedgerEntry) (b : Balance) (db : Db)
    → e.id ≡ db.next_id
    → below (suc db.next_id) e.reverses_entry_id ≡ true
    → Numbered db
    → Numbered (append_entry e b db)
unfolding append_entry all
Numbered-append e b db number link n = record {
  holds =
      all-append (numbered_by (suc db.next_id)) db.entries (e ∷ [])
      ∙ and_intro _ _ (all_numbered-suc db.next_id db.entries n.holds) (
          and_intro _ _
            (and_intro _ _ (lt→ltb e.id (suc db.next_id) (rw (number) (omega arith))) link) refl);
}

-- A successful `post_entry` keeps the numbers below the sequence: the new row takes the next one,
-- and a row that it reverses is there already.
pub post_entry-Numbered :
    (req : PostRequest) (db : Db) {e : LedgerEntry} {db' : Db}
    → Numbered db
    → post_entry req db ≡ ok (e, db')
    → Numbered db'
unfolding new_entry
post_entry-Numbered req db {e} {db'} n h =
    let a = post_entry-Accepted req db h in
    let n₁ = Numbered-Locked (lock_balance-Locked req.project_id db a.locking) n in
    elim a.outcome [
      | inl p ↦ subst Numbered (sym p.unchanged) n₁
      | inr p ↦ subst Numbered (sym p.after) (
          Numbered-append e a.balance a.locked (ap (λ x. x.id) p.made)
            (link_below e a.locked n₁ (row_ok-Mirrors e a.locked p.row)) n₁)
    ]
