-- ===== src/Ledger/Post/Advance.antt =====
-- A relation between the tables before and after a command that posts; it composes, as the commands
-- are chains of calls of `post_entry`.
use mathlib.Core.Path.{ap₂}
use mathlib.Core.List.{append-nil, append_assoc}
use xlr8_flo.Common.{◌≡◌, sym, ap, ◌∙◌, ◌⊎◌, inl, inr, List, [], ◌∷◌, ◌++◌}
use xlr8_flo.Common.Problems.{ok}
use xlr8_flo.Ledger.Types.{LedgerEntry}
use xlr8_flo.Common.{◌==◌, find, all}
use xlr8_flo.Ledger.Tables.{Db, balance_of, sum_where}
use xlr8_flo.Ledger.Tables.Totals.{Reconciles, balance_total, ledger_total, held, posts_to}
use xlr8_flo.Ledger.Post.{PostRequest, post_entry}
use xlr8_flo.Ledger.Post.Effect.{Kept, Added, post_entry-effect, post_entry-Reconciles}
use xlr8_flo.Ledger.Post.Numbering.{Numbered, numbered_by, post_entry-Numbered}

-- Entries are only ever appended; balances that agree with the entries, and numbers that stay below
-- the sequence, do so afterwards.
pub record Advance (db db' : Db) : Type 0 where
  pub added : List LedgerEntry
  pub entries : db'.entries ≡ db.entries ++ added
  pub reconciles : Reconciles db → Reconciles db'
  pub numbered : Numbered db → Numbered db'

pub Advance-refl : (db : Db) → Advance db db
Advance-refl db = record {
  added = [];
  entries = sym (append-nil db.entries);
  reconciles = λ h. h;
  numbered = λ h. h;
}

pub Advance-trans : {a b c : Db} → Advance a b → Advance b c → Advance a c
Advance-trans {a} f g = record {
  added = f.added ++ g.added;
  entries = g.entries ∙ ap (λ es. es ++ g.added) f.entries ∙ append_assoc a.entries f.added g.added;
  reconciles = λ h. g.reconciles (f.reconciles h);
  numbered = λ h. g.numbered (f.numbered h);
}

appended :
    (db db' : Db) (e : LedgerEntry)
    → Kept db db' ⊎ Added e db db'
    → (added : List LedgerEntry) × (db'.entries ≡ db.entries ++ added)
appended db db' e (inl kept) = ([], kept.entries ∙ sym (append-nil db.entries))
appended db db' e (inr a) = (e ∷ [], a.entries)

pub post_entry-Advance :
    (req : PostRequest) (db : Db) {e : LedgerEntry} {db' : Db}
    → post_entry req db ≡ ok (e, db')
    → Advance db db'
post_entry-Advance req db {e} {db'} h =
    let (added, entries) = appended db db' e (post_entry-effect req db h) in
    record {
      added = added;
      entries = entries;
      reconciles = λ r. post_entry-Reconciles req db r h;
      numbered = λ n. post_entry-Numbered req db n h;
    }

-- A write to the other tables keeps it all.
pub Advance-elsewhere :
    (db db' : Db)
    → db'.entries ≡ db.entries
    → db'.balances ≡ db.balances
    → db'.next_id ≡ db.next_id
    → Advance db db'
unfolding balance_total balance_of ledger_total
Advance-elsewhere db db' entries balances number = record {
  added = [];
  entries = entries ∙ sym (append-nil db.entries);
  reconciles = λ h. record {
    at = λ p k.
        ap (λ bs. held k (find (λ b. b.project_id == p) bs)) balances
        ∙ h.at p k
        ∙ ap (sum_where (posts_to p k)) (sym entries);
  };
  numbered = λ h. record { holds = ap₂ (λ i es. all (numbered_by i) es) number entries ∙ h.holds };
}
