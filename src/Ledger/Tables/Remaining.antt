-- ===== src/Ledger/Tables/Remaining.antt =====
-- What remains of an entry when a row is appended: the views reservation_remaining and
-- commitment_remaining that the releases read.
use xlr8_flo.Common.{
  ℕ, ◌≡◌, refl, sym, ap, ◌∙◌, Bool, true, false, ◌&&◌, none, some, List, [], ◌∷◌, ◌++◌, arith, any,
  any-append, or-false,
}
use xlr8_flo.Common.Int.{◌+ℤ◌, +ℤ_assoc}
use xlr8_flo.Common.Equality.{◌===◌, ===_refl, Option_eq, ℕ_eq}
use xlr8_flo.Ledger.Types.{LedgerEntry}
use xlr8_flo.Ledger.Tables.{Db, remaining_of, sum_where, counts_against}
use xlr8_flo.Ledger.Tables.Totals.{sum_where-append, sum_where-one}

-- No entry reverses the number of the new row.
abbrev pub NoneReverses : ℕ → List LedgerEntry → Type 0
NoneReverses n es = any (λ l. l.reverses_entry_id === some n) es ≡ false

counts_against-append :
    (id : ℕ) (es : List LedgerEntry) (n l : LedgerEntry)
    → (l.reverses_entry_id === some n.id) ≡ false
    → counts_against id (es ++ n ∷ []) l ≡ counts_against id es l
unfolding counts_against any
counts_against-append id es n l h =
    rw
      (
        any-append (λ d. d.releases_entry_id === some id && l.reverses_entry_id === some d.id) es
            (n ∷ []),
        h,
      )
      (ground arith)

sum_where-same :
    (p q : LedgerEntry → Bool) (n : ℕ) (es : List LedgerEntry)
    → ((l : LedgerEntry) → (l.reverses_entry_id === some n) ≡ false → p l ≡ q l)
    → NoneReverses n es
    → sum_where p es ≡ sum_where q es
unfolding sum_where any
sum_where-same p q n [] same h = refl
sum_where-same p q n (l ∷ es) same h =
    let (a, b) = or-false _ _ h in rw (same l a, sum_where-same p q n es same b)

module _ (o : LedgerEntry) where
  remaining_live :
      (db : Db)
      → NoneReverses o.id db.entries
      → remaining_of o db ≡ o.amount +ℤ sum_where (counts_against o.id db.entries) db.entries
  unfolding remaining_of
  remaining_live db live = rw (live)

  still_live :
      (e : LedgerEntry) (es : List LedgerEntry)
      → e.reverses_entry_id ≡ none
      → NoneReverses o.id es
      → NoneReverses o.id (es ++ e ∷ [])
  unfolding any
  still_live e es free live =
      any-append (λ v. v.reverses_entry_id === some o.id) es (e ∷ []) ∙ rw (live, free)

  releases_counted :
      (e : LedgerEntry) (es : List LedgerEntry)
      → e.releases_entry_id ≡ some o.id
      → counts_against o.id es e ≡ true
  unfolding counts_against
  releases_counted e es releases = rw (releases, ===_refl (some o.id))

  sum-append_release :
      (e : LedgerEntry) (es : List LedgerEntry)
      → e.releases_entry_id ≡ some o.id
      → NoneReverses e.id es
      → sum_where (counts_against o.id (es ++ e ∷ [])) (es ++ e ∷ [])
        ≡ sum_where (counts_against o.id es) es +ℤ e.amount
  sum-append_release e es releases unseen =
      sum_where-append (counts_against o.id (es ++ e ∷ [])) es (e ∷ [])
      ∙ rw (
        sum_where-one (counts_against o.id (es ++ e ∷ [])) e,
        releases_counted e (es ++ e ∷ []) releases,
        sum_where-same (counts_against o.id (es ++ e ∷ [])) (counts_against o.id es) e.id es
            (λ l h. counts_against-append o.id es e l h) unseen,
      )

  -- A row that reverses nothing takes its amount from what remains of the entry that it releases.
  pub remaining_of-append :
      (e : LedgerEntry) (db db' : Db)
      → db'.entries ≡ db.entries ++ e ∷ []
      → e.reverses_entry_id ≡ none
      → e.releases_entry_id ≡ some o.id
      → NoneReverses e.id db.entries
      → NoneReverses o.id db.entries
      → remaining_of o db' ≡ remaining_of o db +ℤ e.amount
  remaining_of-append e db db' entries free releases unseen live =
      remaining_live db' (
        ap (any (λ v. v.reverses_entry_id === some o.id)) entries
        ∙ still_live e db.entries free live)
      ∙ ap (λ es. o.amount +ℤ sum_where (counts_against o.id es) es) entries
      ∙ ap (λ x. o.amount +ℤ x) (sum-append_release e db.entries releases unseen)
      ∙ sym (+ℤ_assoc o.amount (sum_where (counts_against o.id db.entries) db.entries) e.amount)
      ∙ ap (λ x. x +ℤ e.amount) (sym (remaining_live db live))
