-- ===== src/Ledger/Constraints.antt =====
-- The constraints, foreign keys and trigger of `ledger_entry` and `project_balance`:
-- migrations/20260826_0019_ledger.py, 20260826_0020_project_balance.py and
-- 20260826_0022_reservation_release.py. A row that breaks one raises and rolls back.
use xlr8_flo.Common.{
  ◌≡◌, refl, ◌⊎◌, inl, inr, and_elim, sym, ℕ, ◌^◌, Bool, true, false, not, ◌&&◌, ◌||◌, Option, none,
  some, ltb,
}
use xlr8_flo.Common.Int.{ℤ, pos, neg, ltb_ℤ, leb_ℤ, magnitude}
use xlr8_flo.Common.Equality.{◌===◌, ===_sound, Bool_beq, String_eq, Option_eq, ℕ_eq, ℤ_eq}
use xlr8_flo.Ledger.Types.{
  LedgerType, allocation, reservation, commitment, transfer, reversal, release, adjustment,
  LedgerBucket, allocated, reserved, committed, LedgerEntry, LedgerType_eq, LedgerBucket_eq,
}
use xlr8_flo.Ledger.Tables.{Db, Balance, entry_by_id, reversal_of}

abbrev pub is_some {ℓ} : {A : Type ℓ} → Option A → Bool
is_some none = false
is_some (some _) = true

-- numeric(18,4)
abbrev pub fits_numeric : ℤ → Bool
fits_numeric x = ltb (magnitude x) (10 ^ 18)

-- ledger_type_bucket_ok, as the table has it
abbrev pub type_bucket_ok : LedgerType → LedgerBucket → Bool
type_bucket_ok t b =
    ((t === allocation || t === transfer || t === adjustment) && b === allocated)
    || (t === reservation && b === reserved)
    || (t === commitment && b === committed)
    || (t === LedgerType.actual && b === LedgerBucket.actual)
    || (t === release && (b === reserved || b === committed))
    || t === reversal

-- ledger_sign_ok, as the table has it, with `amount <> 0`
unfoldable pub sign_ok : LedgerType → ℤ → Bool
sign_ok t x =
    not (x === pos 0)
    && (((t === allocation || t === reservation || t === commitment || t === LedgerType.actual)
          && ltb_ℤ (pos 0) x)
        || (t === release && ltb_ℤ x (pos 0))
        || (t === transfer || t === adjustment || t === reversal))

-- ledger_source_link and the source_type check
unfoldable pub source_ok : LedgerEntry → Bool
source_ok e =
    ((e.source_type === "requisition"
        || e.source_type === "purchase_order"
        || e.source_type === "transfer"
        || e.source_type === "import")
      && is_some e.source_id)
    || (e.source_type === "manual" && is_some e.reason)
    || e.source_type === "system"

-- ledger_transfer_group, ledger_reversal_link, ledger_release_link, ledger_adjustment_reason
unfoldable pub links_ok : LedgerEntry → Bool
links_ok e =
    (not (e.entry_type === transfer) || is_some e.transfer_group_id)
    && Bool_beq (e.entry_type === reversal) (is_some e.reverses_entry_id)
    && Bool_beq (e.entry_type === release) (is_some e.releases_entry_id)
    && (not (e.entry_type === adjustment) || is_some e.reason)

-- A link names a row that is there.
unfoldable pub reference_ok : Option ℕ → Db → Bool
reference_ok none db = true
reference_ok (some id) db = is_some (entry_by_id (some id) db)

unfoldable pub mirrors_entry : LedgerEntry → Option LedgerEntry → Bool → Bool
mirrors_entry e none reversed = false
mirrors_entry e (some o) reversed =
    e.bucket === o.bucket
    && e.amount === neg o.amount
    && e.currency === o.currency
    && e.project_id === o.project_id
    && e.bu_id === o.bu_id
    && not reversed

-- The trigger enforce_ledger_reversal, and the unique index ledger_one_reversal.
unfoldable pub reversal_ok : Option ℕ → LedgerEntry → Db → Bool
unfolding mirrors_entry
reversal_ok none e db = true
reversal_ok (some id) e db =
    mirrors_entry e (entry_by_id (some id) db) (is_some (reversal_of id db))

unfoldable pub row_ok : LedgerEntry → Db → Bool
unfolding source_ok links_ok reference_ok reversal_ok
row_ok e db =
    type_bucket_ok e.entry_type e.bucket
    && sign_ok e.entry_type e.amount
    && fits_numeric e.amount
    && source_ok e
    && links_ok e
    && reference_ok e.releases_entry_id db
    && reference_ok e.converts_entry_id db
    && reversal_ok e.reverses_entry_id e db

-- project_balance_nonnegative_buckets, and the scale of the columns
unfoldable pub balance_ok : Balance → Bool
balance_ok b =
    leb_ℤ (pos 0) b.reserved
    && leb_ℤ (pos 0) b.committed
    && leb_ℤ (pos 0) b.actual
    && fits_numeric b.allocated
    && fits_numeric b.reserved
    && fits_numeric b.committed
    && fits_numeric b.actual

-- What the trigger lets in: an entry that reverses none, or the mirror image of an entry that is
-- there and that no entry reverses yet.
pub record Mirrors (e o : LedgerEntry) (id : ℕ) (db : Db) : Type 0 where
  pub found : entry_by_id (some id) db ≡ some o
  pub bucket : e.bucket ≡ o.bucket
  pub amount : e.amount ≡ neg o.amount
  pub project : e.project_id ≡ o.project_id
  pub first : is_some (reversal_of id db) ≡ false

not_of : (b : Bool) → not b ≡ true → b ≡ false
not_of true h = sym h
not_of false h = refl

mirrors_entry-Mirrors :
    (e : LedgerEntry) (id : ℕ) (db : Db) (known : Option LedgerEntry)
    → entry_by_id (some id) db ≡ known
    → mirrors_entry e known (is_some (reversal_of id db)) ≡ true
    → (o : LedgerEntry) × Mirrors e o id db
unfolding mirrors_entry
mirrors_entry-Mirrors e id db none found h = cc
mirrors_entry-Mirrors e id db (some o) found h =
    let (h₁, first) = and_elim _ _ h in
    let (h₂, _) = and_elim _ _ h₁ in
    let (h₃, project) = and_elim _ _ h₂ in
    let (h₄, _) = and_elim _ _ h₃ in
    let (bucket, amount) = and_elim _ _ h₄ in
    (
      o,
      record {
        found = found;
        bucket = ===_sound e.bucket o.bucket bucket;
        amount = ===_sound e.amount (neg o.amount) amount;
        project = ===_sound e.project_id o.project_id project;
        first = not_of _ first;
      },
    )

reversal_ok-Mirrors :
    (r : Option ℕ) (e : LedgerEntry) (db : Db)
    → reversal_ok r e db ≡ true
    → (r ≡ none) ⊎ ((id : ℕ) × (o : LedgerEntry) × (r ≡ some id) × Mirrors e o id db)
unfolding reversal_ok
reversal_ok-Mirrors none e db h = inl refl
reversal_ok-Mirrors (some id) e db h =
    let (o, m) = mirrors_entry-Mirrors e id db (entry_by_id (some id) db) refl h in
    inr (id, o, refl, m)

pub row_ok-Mirrors :
    (e : LedgerEntry) (db : Db)
    → row_ok e db ≡ true
    → (e.reverses_entry_id ≡ none)
      ⊎ ((id : ℕ) × (o : LedgerEntry) × (e.reverses_entry_id ≡ some id) × Mirrors e o id db)
unfolding row_ok
row_ok-Mirrors e db h = reversal_ok-Mirrors e.reverses_entry_id e db ((and_elim _ _ h).1)
