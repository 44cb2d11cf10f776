-- ===== src/Ledger/Tables.antt =====
-- The tables of one organization that the budget commands read and write, and the queries of
-- `LedgerRepository` (apps/api/src/flo/modules/budget/ledger.py) and of the remaining views.
pub mod Totals
pub mod Remaining
use xlr8_flo.Common.{
  ℕ, zero, suc, ◌+◌, String, Bool, true, false, ◌&&◌, ◌||◌, Option, none, some, List, [], ◌∷◌, ◌++◌,
  ◌==◌, ltb, leb, if◌then◌else◌, find, any,
}
use xlr8_flo.Common.Int.{ℤ, pos, ◌+ℤ◌, ◌-ℤ◌, ltb_ℤ}
use xlr8_flo.Common.Equality.{◌===◌, String_eq, Option_eq, ℕ_eq}
use xlr8_flo.Common.Problems.{Problem, not_found, conflict, Result, ok, err, ◌>>=◌, ◌>>◌, raise_if}
use xlr8_flo.Ledger.Types.{
  LedgerType, LedgerBucket, allocated, reserved, committed, LedgerEntry, type_beq, bucket_beq,
}

pub data ProjectStatus : Type 0 where
  draft approval_pending active deferred completed abandoned : ProjectStatus

-- The columns of `project` that funding reads.
pub record Project : Type 0 where
  pub id : ℕ
  pub bu_id : ℕ
  pub parent_id : Option ℕ
  pub root_id : ℕ
  pub depth : ℕ
  pub currency : String
  pub status : ProjectStatus
  pub department_code : String
  pub ledger_account_code : String

-- A row of `project_balance`.
pub record Balance : Type 0 where
  pub project_id : ℕ
  pub bu_id : ℕ
  pub currency : String
  pub allocated : ℤ
  pub reserved : ℤ
  pub committed : ℤ
  pub actual : ℤ
  pub version : ℕ

-- The generated column `available`.
unfoldable pub available : Balance → ℤ
available b = b.allocated -ℤ b.reserved -ℤ b.committed -ℤ b.actual

pub record OrgUnit : Type 0 where
  pub id : ℕ
  pub parent_id : Option ℕ

pub data JsonValue : Type 0 where
  null : JsonValue
  bool : Bool → JsonValue
  text : String → JsonValue

pub record OrgSetting : Type 0 where
  pub unit_id : Option ℕ
  pub key : String
  pub value : JsonValue

-- A closed row of `fiscal_period`; dates are day numbers.
pub record ClosedPeriod : Type 0 where
  pub starts_on : ℕ
  pub ends_on : ℕ

-- A row of `ledger_evidence`.
pub record Evidence : Type 0 where
  pub entry_id : ℕ
  pub ref : String

-- A row that `AuditWriter.write` appends; a posting's has the entry as its `after_source`.
pub record AuditEvent : Type 0 where
  pub action : String
  pub actor_id : ℕ
  pub target_id : ℕ
  pub bu_id : ℕ
  pub entry : Option LedgerEntry

pub record Db : Type 0 where
  pub projects : List Project
  pub units : List OrgUnit
  pub settings : List OrgSetting
  pub closed_periods : List ClosedPeriod
  pub balances : List Balance
  pub entries : List LedgerEntry
  pub evidence : List Evidence
  pub audit : List AuditEvent
  -- the sequence of `ledger_entry.id`
  pub next_id : ℕ

-- A command returns with the tables that it leaves, or raises and is rolled back.
abbrev pub Tx : Type 0 → Type 0
Tx A = Db → Result (A × Db)

unfoldable pub project_of : ℕ → Db → Option Project
project_of id db = find (λ p. p.id == id) db.projects

-- `LedgerRepository.balance`
unfoldable pub balance_of : ℕ → Db → Option Balance
balance_of project_id db = find (λ b. b.project_id == project_id) db.balances

-- `LedgerRepository.entry("id = %(id)s")`; `NULL` equals no id
unfoldable pub entry_by_id : Option ℕ → Db → Option LedgerEntry
entry_by_id none db = none
entry_by_id (some id) db = find (λ e. e.id == id) db.entries

-- `LedgerRepository.entry("idempotency_key = %(key)s")`
unfoldable pub entry_by_key : String → Db → Option LedgerEntry
entry_by_key key db = find (λ e. e.idempotency_key === key) db.entries

-- `LedgerRepository.entry("reverses_entry_id = %(id)s")`
unfoldable pub reversal_of : ℕ → Db → Option LedgerEntry
reversal_of id db = find (λ e. e.reverses_entry_id === some id) db.entries

-- ON CONFLICT (project_id) DO NOTHING, for a project that has no row yet.
unfoldable pub empty_balance : Project → Balance
empty_balance p = record {
  project_id = p.id;
  bu_id = p.bu_id;
  currency = p.currency;
  allocated = pos 0;
  reserved = pos 0;
  committed = pos 0;
  actual = pos 0;
  version = 0;
}

-- `balance = repo.balance(project_id, lock=True)`, and the row that `post_entry` inserts where
-- there is none.
unfoldable pub lock_balance : ℕ → Tx Balance
lock_balance project_id db = elim (balance_of project_id db) [
  | some b ↦ ok (b, db)
  | none ↦ elim (project_of project_id db) [
    | some p ↦ ok (empty_balance p, record db { balances = db.balances ++ empty_balance p ∷ [] })
    | none ↦ err not_found
  ]
]

abbrev pub add_to : LedgerBucket → ℤ → Balance → Balance
add_to allocated x b = record b { allocated = b.allocated +ℤ x; version = b.version + 1 }
add_to reserved x b = record b { reserved = b.reserved +ℤ x; version = b.version + 1 }
add_to committed x b = record b { committed = b.committed +ℤ x; version = b.version + 1 }
add_to LedgerBucket.actual x b = record b { actual = b.actual +ℤ x; version = b.version + 1 }

abbrev pub bucket_of : LedgerBucket → Balance → ℤ
bucket_of allocated b = b.allocated
bucket_of reserved b = b.reserved
bucket_of committed b = b.committed
bucket_of LedgerBucket.actual b = b.actual

-- `UPDATE project_balance … WHERE project_id = …`
unfoldable pub update_row : ℕ → LedgerBucket → ℤ → List Balance → List Balance
update_row project_id bucket x [] = []
update_row project_id bucket x (b ∷ bs) =
    (if b.project_id == project_id then add_to bucket x b else b)
    ∷ update_row project_id bucket x bs

-- SUM(amount) over the rows that pass a test
unfoldable pub sum_where : (LedgerEntry → Bool) → List LedgerEntry → ℤ
sum_where p [] = pos 0
sum_where p (e ∷ es) = (if p e then e.amount else pos 0) +ℤ sum_where p es

-- `l.releases_entry_id = r.id OR l.reverses_entry_id IN (SELECT d.id … WHERE d.releases_entry_id
-- = r.id)`
unfoldable pub counts_against : ℕ → List LedgerEntry → LedgerEntry → Bool
counts_against id entries l =
    l.releases_entry_id === some id
    || any (λ d. d.releases_entry_id === some id && l.reverses_entry_id === some d.id) entries

-- The column `remaining` of `reservation_remaining` and `commitment_remaining`.
unfoldable pub remaining_of : LedgerEntry → Db → ℤ
remaining_of r db =
    if any (λ v. v.reverses_entry_id === some r.id) db.entries
    then pos 0
    else r.amount +ℤ sum_where (counts_against r.id db.entries) db.entries

-- FiscalService.assert_postable: a date in a period that is not closed, or in none yet, passes.
unfoldable pub assert_postable : ℕ → Db → Result (Unit {0})
assert_postable date db =
    raise_if (any (λ p. leb p.starts_on date && leb date p.ends_on) db.closed_periods)
      (conflict "period_closed")
