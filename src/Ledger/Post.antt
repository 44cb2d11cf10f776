-- ===== src/Ledger/Post.antt =====
-- `post_entry` of apps/api/src/flo/modules/budget/ledger.py, in the stages of its body.
pub mod Stages
pub mod Effect
pub mod Replay
pub mod Funds
pub mod Rows
pub mod Numbering
pub mod Advance
use xlr8_flo.Common.{
  ℕ, suc, ◌+◌, String, Bool, true, false, not, ◌&&◌, ◌||◌, Option, none, some, List, [], ◌∷◌, ◌++◌,
  if◌then◌else◌, ◌==◌,
}
use xlr8_flo.Common.Int.{ℤ, pos, ◌+ℤ◌, ◌-ℤ◌, neg, ltb_ℤ}
use xlr8_flo.Common.Equality.{◌===◌, String_eq, Option_eq, ℕ_eq, ℤ_eq}
use xlr8_flo.Common.Problems.{
  Problem, not_found, validation_failed, conflict, idempotency_key_reused, insufficient_budget,
  assertion_error, integrity_error, Result, ok, err, ◌>>=◌, ◌>>◌, raise_if,
}
use xlr8_flo.Money.{quantize}
use xlr8_flo.Ledger.Types.{
  LedgerType, LedgerBucket, allocated, reserved, committed, release, reversal, LedgerEntry, Links,
  same_links, bucket_allowed, default_bucket, expected_sign, Sign, positive, negative, either,
  LedgerBucket_eq, LedgerType_eq,
}
use xlr8_flo.Ledger.Tables.{
  Db, Tx, Balance, available, AuditEvent, ProjectStatus, draft, active, deferred, entry_by_id,
  entry_by_key, project_of, lock_balance, add_to, update_row, assert_postable,
}
use xlr8_flo.Ledger.Constraints.{is_some, row_ok, balance_ok}
use xlr8_flo.Ledger.Settings.{allow_negative_budget, effective_setting, is_true}

-- The arguments of `post_entry`.
pub record PostRequest : Type 0 where
  pub links : Links
  pub open links use *
  pub bucket : Option LedgerBucket
  pub amount : ℤ
  pub currency : String
  pub actor_id : ℕ
  pub idempotency_key : String
  pub allow_negative : Option Bool
  pub skip_period_check : Bool

-- The bucket, amount and currency of the payload, once derived.
pub record Resolved : Type 0 where
  pub bucket : Option LedgerBucket
  pub amount : ℤ
  pub currency : String

abbrev pub reused : Problem
reused = idempotency_key_reused "idempotency_conflict"

-- An entry has the key, and differs from the payload in a field other than the money.
unfoldable pub clashes : Option LedgerEntry → Links → Bool
clashes none links = false
clashes (some e) links = not (same_links e.links links)

unfoldable pub reverse_of : PostRequest → Option LedgerEntry → Result Resolved
reverse_of req none = err not_found
reverse_of req (some o) =
    if o.project_id == req.project_id
    then ok (record { bucket = some o.bucket; amount = neg o.amount; currency = o.currency })
    else err not_found

-- The money of a payload, by the type of the entry: a reversal takes it from the entry that it
-- reverses; a release names its bucket; the other types have a bucket of their own.
unfoldable pub resolve_as :
    LedgerType → PostRequest → Balance → Option LedgerEntry → Db → Result Resolved
resolve_as reversal req balance existing db = do
  quantize req.amount balance.currency
  raise_if (is_some req.bucket && not (is_some existing)) (validation_failed "invalid_ledger_entry")
  reverse_of req (entry_by_id req.reverses_entry_id db)
resolve_as release req balance existing db =
    ok (record { bucket = req.bucket; amount = req.amount; currency = req.currency })
resolve_as t req balance existing db = ok (record {
  bucket = elim req.bucket [ none ↦ some (default_bucket t) | some b ↦ some b ];
  amount = req.amount;
  currency = req.currency;
})

unfoldable pub resolve : PostRequest → Balance → Option LedgerEntry → Db → Result Resolved
resolve req = resolve_as req.entry_type req

-- `replay(existing, payload)`
unfoldable pub replay : LedgerEntry → Links → Resolved → Result LedgerEntry
replay e links r = do
  raise_if
      (not (
        same_links e.links links
        && some e.bucket === r.bucket
        && e.amount === r.amount
        && e.currency === r.currency))
      reused
  ok e

-- The stored entry answers a repeated request, if the rounded payload is the stored one.
unfoldable pub replay_known : LedgerEntry → Links → Resolved → Result LedgerEntry
replay_known e links r = do
  amount ← if r.currency === e.currency then quantize r.amount r.currency else ok r.amount
  replay e links (record r { amount = amount })

unfoldable pub check_bucket :
    LedgerType → Option LedgerBucket → Option LedgerBucket → Result LedgerBucket
check_bucket release given none = err (validation_failed "invalid_ledger_entry")
check_bucket release given (some b) = do
  raise_if (not (bucket_allowed release b)) (validation_failed "invalid_ledger_entry")
  ok b
check_bucket reversal given none = err assertion_error
check_bucket reversal given (some b) = ok b
check_bucket t given none = err assertion_error
check_bucket t given (some b) = do
  raise_if (is_some given) (validation_failed "invalid_ledger_entry")
  ok b

unfoldable pub check_period : PostRequest → Db → Result (Unit {0})
check_period req db =
    if req.skip_period_check
    then raise_if (not (req.entry_type === release)) (validation_failed "invalid_ledger_entry")
    else assert_postable req.effective_date db

-- amount == 0, or against the sign of its type
unfoldable pub wrong_sign : LedgerType → ℤ → Bool
wrong_sign t x = x === pos 0 || elim (expected_sign t) [
  | positive ↦ ltb_ℤ x (pos 0)
  | negative ↦ ltb_ℤ (pos 0) x
  | either ↦ false
]

abbrev is_draft_or_active : ProjectStatus → Bool
is_draft_or_active draft = true
is_draft_or_active active = true
is_draft_or_active _ = false

abbrev is_active : ProjectStatus → Bool
is_active active = true
is_active _ = false

abbrev is_active_or_deferred : ProjectStatus → Bool
is_active_or_deferred active = true
is_active_or_deferred deferred = true
is_active_or_deferred _ = false

unfoldable pub posting_allowed : ProjectStatus → LedgerBucket → ℤ → Bool
posting_allowed status allocated x = ltb_ℤ x (pos 0) || is_draft_or_active status
posting_allowed status reserved x = is_active status
posting_allowed status committed x = is_active status
posting_allowed status LedgerBucket.actual x = is_active_or_deferred status

-- `assert_posting_allowed` of apps/api/src/flo/modules/projects/service.py
unfoldable pub assert_posting_allowed : ℕ → LedgerType → LedgerBucket → ℤ → Db → Result (Unit {0})
assert_posting_allowed project_id t bucket x db = elim (project_of project_id db) [
  | none ↦ err not_found
  | some p ↦
      raise_if (not (t === release || t === reversal || posting_allowed p.status bucket x))
        (conflict "posting_not_allowed")
]

-- What the entry leaves available.
unfoldable pub projected : Balance → LedgerBucket → ℤ → ℤ
projected b allocated x = available b +ℤ x
projected b _ x = available b -ℤ x

unfoldable pub negative_allowed : Option Bool → ℕ → Db → Result Bool
negative_allowed (some allowed) bu_id db = ok allowed
negative_allowed none bu_id db = do
  value ← effective_setting bu_id allow_negative_budget db
  ok (is_true value)

unfoldable pub check_funds : Option Bool → Balance → LedgerBucket → ℤ → Db → Result (Unit {0})
check_funds allow b bucket x db = do
  allowed ← negative_allowed allow b.bu_id db
  raise_if
      (ltb_ℤ (projected b bucket x) (available b)
        && ltb_ℤ (projected b bucket x) (pos 0)
        && not allowed)
      (insufficient_budget (available b) (available b -ℤ projected b bucket x))

unfoldable pub new_entry : PostRequest → Balance → LedgerBucket → ℤ → String → Db → LedgerEntry
new_entry req b bucket x currency db = record {
  id = db.next_id;
  bu_id = b.bu_id;
  actor_id = req.actor_id;
  idempotency_key = req.idempotency_key;
  bucket = bucket;
  amount = x;
  currency = currency;
  links = req.links;
}

-- The INSERT … RETURNING, `update_balance` and the audit row of one new entry.
unfoldable pub append_entry : LedgerEntry → Balance → Db → Db
append_entry e b db = record db {
  balances = update_row e.project_id e.bucket e.amount db.balances;
  entries = db.entries ++ e ∷ [];
  audit =
      db.audit
      ++ record {
        action = "ledger.post";
        actor_id = e.actor_id;
        target_id = e.project_id;
        bu_id = b.bu_id;
        entry = some e;
      }
        ∷ [];
  next_id = suc db.next_id;
}

-- ON CONFLICT (org_id, idempotency_key) DO NOTHING: the stored row of the key answers, or the new
-- row goes in.
unfoldable pub insert_or_replay : Option LedgerEntry → LedgerEntry → Balance → Tx LedgerEntry
insert_or_replay (some known) e b db = do
  found ←
      replay known e.links
        (record { bucket = some e.bucket; amount = e.amount; currency = e.currency })
  ok (found, db)
insert_or_replay none e b db = do
  raise_if (not (row_ok e db)) (integrity_error "ledger_entry")
  raise_if (not (balance_ok (add_to e.bucket e.amount b))) (integrity_error "project_balance")
  ok (e, append_entry e b db)

unfoldable pub insert_entry : LedgerEntry → Balance → Tx LedgerEntry
insert_entry e b db = insert_or_replay (entry_by_key e.idempotency_key db) e b db

-- The checks of a key that is new, then the insertion.
unfoldable pub post_new : PostRequest → Balance → Resolved → Tx LedgerEntry
post_new req b r db = do
  bucket ← check_bucket req.entry_type req.bucket r.bucket
  raise_if (not (r.currency === b.currency)) (validation_failed "currency_mismatch")
  x ← quantize r.amount r.currency
  check_period req db
  raise_if (wrong_sign req.entry_type x) (validation_failed "invalid_ledger_entry")
  assert_posting_allowed req.project_id req.entry_type bucket x db
  check_funds req.allow_negative b bucket x db
  insert_entry (new_entry req b bucket x r.currency db) b db

unfoldable pub answer : PostRequest → Balance → Option LedgerEntry → Resolved → Tx LedgerEntry
answer req b (some e) r db = do found ← replay_known e req.links r; ok (found, db)
answer req b none r db = post_new req b r db

unfoldable pub post_entry : PostRequest → Tx LedgerEntry
post_entry req db = do
  (b, db₁) ← lock_balance req.project_id db
  let existing = entry_by_key req.idempotency_key db₁
  raise_if (clashes existing req.links) reused
  r ← resolve req b existing db₁
  answer req b existing r db₁
