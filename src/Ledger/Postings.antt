-- ===== src/Ledger/Postings.antt =====
-- apps/api/src/flo/modules/budget/postings.py
pub mod Advance
pub mod Reversal
pub mod Draw
use xlr8_flo.Common.{
  ℕ, String, Bool, true, false, not, ◌&&◌, ◌||◌, Option, none, some, if◌then◌else◌, leb, any, List,
  [], ◌∷◌,
}
use xlr8_flo.Common.Int.{ℤ, pos, neg, ltb_ℤ, leb_ℤ}
use xlr8_flo.Common.Equality.{◌===◌, ℤ_eq, ℕ_eq, String_eq}
use xlr8_flo.Common.Problems.{
  not_found, validation_failed, conflict, Result, ok, err, ◌>>=◌, ◌>>◌, raise_if,
}
use xlr8_flo.Money.{quantize}
use xlr8_flo.Ledger.Types.{
  LedgerType, LedgerBucket, committed, reservation, commitment, reversal, transfer, LedgerEntry,
  LedgerType_eq,
}
use xlr8_flo.Ledger.Tables.{
  Db, Tx, Balance, balance_of, entry_by_id, entry_by_key, reversal_of, remaining_of,
}
use xlr8_flo.Ledger.Constraints.{is_some}
use xlr8_flo.Ledger.Post.{PostRequest, post_entry}
use xlr8_flo.Ledger.Reservations.{
  FundingRequest, ReleaseRequest, funding_post, release_by_key, release_reservation,
}
use Prim.Native.String.{◌++◌}

-- `assert_usable` of the master data, and its dates: whether a code of a kind may be used on a day.
abbrev pub CodeCheck : Type 0
CodeCheck = String → String → ℕ → Result (Unit {0})

unfoldable pub locked_original : Option LedgerEntry → Db → Result LedgerEntry
locked_original none db = err not_found
locked_original (some e) db = do
  raise_if (not (is_some (balance_of e.project_id db))) not_found
  ok e

unfoldable pub original_entry : ℕ → Db → Result LedgerEntry
original_entry id db = locked_original (entry_by_id (some id) db) db

unfoldable pub release_commitment : ReleaseRequest → Tx (Option LedgerEntry)
release_commitment req db = do
  o ← original_entry req.entry_id db
  raise_if (not (o.entry_type === commitment)) (validation_failed "invalid_ledger_entry")
  release_by_key (entry_by_key req.idempotency_key db) o committed "commitment_reversed"
      "release_exceeds_commitment" req db

-- `for kind, code in (…): if not code: raise …; assert_usable(…)`
unfoldable pub check_codes : CodeCheck → List (String × String) → ℕ → Result (Unit {0})
check_codes usable [] date = ok tt
check_codes usable ((kind, code) ∷ rest) date = do
  raise_if (code === "") (validation_failed "invalid_ledger_entry")
  usable kind code date
  check_codes usable rest date

unfoldable pub expected_source : LedgerType → LedgerType
expected_source commitment = reservation
expected_source _ = commitment

-- The release of what a conversion consumes, under a key of its own.
unfoldable pub conversion_release : ℕ → ℤ → String → FundingRequest → ReleaseRequest
conversion_release id released reason req = record {
  entry_id = id;
  amount = some released;
  actor_id = req.actor_id;
  reason = reason;
  idempotency_key = req.idempotency_key ++ ":release";
  effective_date = some req.effective_date;
  today = req.effective_date;
}

unfoldable pub release_source : LedgerType → ℕ → ℤ → FundingRequest → Tx (Option LedgerEntry)
release_source reservation id released req =
    release_reservation (conversion_release id released "Converted to commitment" req)
release_source _ id released req =
    release_commitment (conversion_release id released "Consumed by actual" req)

abbrev pub min_ℤ : ℤ → ℤ → ℤ
min_ℤ a b = if leb_ℤ a b then a else b

-- The checks of a conversion, and the release of the part of its source that it consumes.
unfoldable pub convert : LedgerType → ℕ → ℤ → FundingRequest → Tx (Option LedgerEntry)
convert t source x req db = do
  o ← original_entry source db
  raise_if (not (o.project_id === req.project_id)) not_found
  raise_if (not (o.entry_type === expected_source t)) (validation_failed "invalid_ledger_entry")
  raise_if (not (o.currency === req.currency)) (validation_failed "currency_mismatch")
  raise_if (is_some (reversal_of o.id db)) (conflict "conversion_source_reversed")
  raise_if (t === LedgerType.actual && ltb_ℤ (remaining_of o db) x)
      (conflict "release_exceeds_commitment")
  let released = min_ℤ x (remaining_of o db)
  if ltb_ℤ (pos 0) released
      then release_source (expected_source t) o.id released req db
      else ok (none, db)

unfoldable pub convert_if : LedgerType → Option ℕ → ℤ → FundingRequest → Tx (Option LedgerEntry)
convert_if t none x req db = ok (none, db)
convert_if t (some source) x req db = convert t source x req db

-- A key that is new: the checks, the conversion, then the entry of the rounded amount.
unfoldable pub consume_new : CodeCheck → LedgerType → Option ℕ → FundingRequest → Tx LedgerEntry
unfolding check_codes convert_if
consume_new usable t converts req db = do
  x ← quantize req.amount req.currency
  raise_if (leb_ℤ x (pos 0)) (validation_failed "invalid_ledger_entry")
  if t === LedgerType.actual
      then check_codes usable
          (("department", req.department_code) ∷ ("ledger_account", req.ledger_account_code) ∷ [])
          req.effective_date
      else ok tt
  (_, db₁) ← convert_if t converts x req db
  post_entry (funding_post t converts (record req { amount = x })) db₁

-- `_consume`
unfoldable pub consume : CodeCheck → LedgerType → Option ℕ → FundingRequest → Tx LedgerEntry
unfolding consume_new
consume usable t converts req db = do
  raise_if (not (is_some (balance_of req.project_id db))) not_found
  if is_some (entry_by_key req.idempotency_key db)
      then post_entry (funding_post t converts req) db
      else consume_new usable t converts req db

unfoldable pub commit : CodeCheck → Option ℕ → FundingRequest → Tx LedgerEntry
commit usable from_reservation req = consume usable commitment from_reservation req

unfoldable pub record_actual : CodeCheck → Option ℕ → FundingRequest → Tx LedgerEntry
record_actual usable from_commitment req = consume usable LedgerType.actual from_commitment req

-- The arguments of `reverse_entry`.
pub record ReverseRequest : Type 0 where
  pub entry_id : ℕ
  pub actor_id : ℕ
  pub effective_date : ℕ
  pub reason : String
  pub idempotency_key : String

unfoldable pub reverse_post : LedgerEntry → ReverseRequest → PostRequest
reverse_post o req = record {
  links = record {
    entry_type = reversal;
    project_id = o.project_id;
    source_type = o.source_type;
    source_id = o.source_id;
    effective_date = req.effective_date;
    transfer_group_id = none;
    reverses_entry_id = some o.id;
    releases_entry_id = none;
    converts_entry_id = none;
    reason = some req.reason;
    department_code = o.department_code;
    ledger_account_code = o.ledger_account_code;
  };
  bucket = none;
  amount = neg o.amount;
  currency = o.currency;
  actor_id = req.actor_id;
  idempotency_key = req.idempotency_key;
  allow_negative = none;
  skip_period_check = false;
}

-- A holding is one that releases draw down.
abbrev is_holding : LedgerType → Bool
is_holding reservation = true
is_holding commitment = true
is_holding _ = false

unfoldable pub check_reversible : LedgerEntry → Db → Result (Unit {0})
check_reversible o db = do
  raise_if (o.entry_type === reversal) (conflict "cannot_reverse_reversal")
  raise_if (is_some (reversal_of o.id db)) (conflict "entry_already_reversed")
  raise_if (is_holding o.entry_type && ltb_ℤ (remaining_of o db) o.amount)
      (conflict "entry_partly_released")

unfoldable pub reverse_entry : ReverseRequest → Tx LedgerEntry
unfolding check_reversible
reverse_entry req db = do
  o ← original_entry req.entry_id db
  raise_if (o.entry_type === transfer) (conflict "cannot_reverse_transfer")
  if is_some (entry_by_key req.idempotency_key db) then ok tt else check_reversible o db
  post_entry (reverse_post o req) db
