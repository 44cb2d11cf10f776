-- ===== src/Ledger/Reservations.antt =====
-- apps/api/src/flo/modules/budget/reservations.py
pub mod Release
pub mod Draw
pub mod Advance
use xlr8_flo.Common.{
  ℕ, String, Bool, true, false, not, ◌&&◌, ◌||◌, Option, none, some, if◌then◌else◌,
}
use xlr8_flo.Common.Int.{ℤ, pos, neg, ltb_ℤ}
use xlr8_flo.Common.Equality.{◌===◌, ℤ_eq}
use xlr8_flo.Common.Problems.{
  not_found, validation_failed, conflict, Result, ok, err, ◌>>=◌, ◌>>◌, raise_if,
}
use xlr8_flo.Money.{quantize}
use xlr8_flo.Ledger.Types.{
  LedgerType, LedgerBucket, reserved, committed, reservation, release, LedgerEntry, Links,
  LedgerType_eq,
}
use xlr8_flo.Ledger.Tables.{
  Db, Tx, Balance, balance_of, entry_by_id, entry_by_key, reversal_of, remaining_of,
}
use xlr8_flo.Ledger.Constraints.{is_some}
use xlr8_flo.Ledger.Post.{PostRequest, post_entry}

-- The arguments of `reserve`, `commit` and `record_actual`.
pub record FundingRequest : Type 0 where
  pub project_id : ℕ
  pub amount : ℤ
  pub currency : String
  pub source_type : String
  pub source_id : Option ℕ
  pub effective_date : ℕ
  pub actor_id : ℕ
  pub department_code : String
  pub ledger_account_code : String
  pub idempotency_key : String

-- The call of `post_entry` that the three make.
unfoldable pub funding_post : LedgerType → Option ℕ → FundingRequest → PostRequest
funding_post t converts req = record {
  links = record {
    entry_type = t;
    project_id = req.project_id;
    source_type = req.source_type;
    source_id = req.source_id;
    effective_date = req.effective_date;
    transfer_group_id = none;
    reverses_entry_id = none;
    releases_entry_id = none;
    converts_entry_id = converts;
    reason = none;
    department_code = req.department_code;
    ledger_account_code = req.ledger_account_code;
  };
  bucket = none;
  amount = req.amount;
  currency = req.currency;
  actor_id = req.actor_id;
  idempotency_key = req.idempotency_key;
  allow_negative = none;
  skip_period_check = false;
}

unfoldable pub reserve : FundingRequest → Tx LedgerEntry
unfolding funding_post
reserve req = post_entry (funding_post reservation none req)

-- The arguments of `release_reservation` and `release_commitment`; `today` is `date.today()`.
pub record ReleaseRequest : Type 0 where
  pub entry_id : ℕ
  pub amount : Option ℤ
  pub actor_id : ℕ
  pub reason : String
  pub idempotency_key : String
  pub effective_date : Option ℕ
  pub today : ℕ

-- The call of `post_entry` that releases part of an entry.
unfoldable pub release_post : LedgerEntry → LedgerBucket → ℤ → ReleaseRequest → PostRequest
release_post o bucket released req = record {
  links = record {
    entry_type = release;
    project_id = o.project_id;
    source_type = o.source_type;
    source_id = o.source_id;
    effective_date = elim req.effective_date [ none ↦ req.today | some d ↦ d ];
    transfer_group_id = none;
    reverses_entry_id = none;
    releases_entry_id = some o.id;
    converts_entry_id = none;
    reason = some req.reason;
    department_code = o.department_code;
    ledger_account_code = o.ledger_account_code;
  };
  bucket = some bucket;
  amount = neg released;
  currency = o.currency;
  actor_id = req.actor_id;
  idempotency_key = req.idempotency_key;
  allow_negative = none;
  skip_period_check = true;
}

unfoldable pub post_release :
    LedgerEntry → LedgerBucket → ℤ → ReleaseRequest → Tx (Option LedgerEntry)
post_release o bucket released req db = do
  (e, db₁) ← post_entry (release_post o bucket released req) db
  ok (some e, db₁)

-- `default if amount is None else quantize(amount, currency)`
unfoldable pub amount_or : ℤ → Option ℤ → String → Result ℤ
amount_or default none currency = ok default
amount_or default (some x) currency = quantize x currency

-- A key that has an entry: `post_entry` compares the payloads.
unfoldable pub release_again :
    LedgerEntry → LedgerBucket → LedgerEntry → ReleaseRequest → Tx (Option LedgerEntry)
release_again o bucket existing req db = do
  released ← amount_or (neg existing.amount) req.amount o.currency
  post_release o bucket released req db

-- A new key: the release may not exceed what remains.
unfoldable pub release_new :
    LedgerEntry → LedgerBucket → String → String → ReleaseRequest → Tx (Option LedgerEntry)
release_new o bucket reversed exceeds req db = do
  raise_if (is_some (reversal_of o.id db)) (conflict reversed)
  released ← amount_or (remaining_of o db) req.amount o.currency
  raise_if (ltb_ℤ released (pos 0) || is_some req.amount && released === pos 0)
      (validation_failed "invalid_ledger_entry")
  if remaining_of o db === pos 0 then ok (none, db) else do
    raise_if (ltb_ℤ (remaining_of o db) released) (conflict exceeds)
    post_release o bucket released req db

unfoldable pub release_by_key :
    Option LedgerEntry
    → LedgerEntry
    → LedgerBucket
    → String
    → String
    → ReleaseRequest
    → Tx (Option LedgerEntry)
release_by_key none o bucket reversed exceeds req db = release_new o bucket reversed exceeds req db
release_by_key (some e) o bucket reversed exceeds req db = release_again o bucket e req db

-- From the reservation on: its type, the lock of its balance, then the release.
unfoldable pub release_reserved : Option LedgerEntry → ReleaseRequest → Tx (Option LedgerEntry)
release_reserved none req db = err not_found
release_reserved (some o) req db = do
  raise_if (not (o.entry_type === reservation)) (validation_failed "invalid_ledger_entry")
  raise_if (not (is_some (balance_of o.project_id db))) not_found
  release_by_key (entry_by_key req.idempotency_key db) o reserved "reservation_reversed"
      "release_exceeds_reservation" req db

unfoldable pub release_reservation : ReleaseRequest → Tx (Option LedgerEntry)
release_reservation req db = release_reserved (entry_by_id (some req.entry_id) db) req db
