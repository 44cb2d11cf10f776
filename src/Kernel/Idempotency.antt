-- ===== src/Kernel/Idempotency.antt =====
-- Idempotent requests: IdempotencyStore of apps/api/src/flo/kernel/idempotency/store.py.
pub mod Replay
use xlr8_flo.Common.{
  ℕ, zero, suc, ◌+◌, ◌-◌, ◌*◌, String, Bool, true, false, not, ◌&&◌, ◌||◌, Option, none, some, List,
  [], ◌∷◌, ◌++◌, ltb, if◌then◌else◌, find, any, length,
}
use xlr8_flo.Common.Equality.{◌===◌, String_eq}
use xlr8_flo.Common.Problems.{runtime_error, Result, ok, err, ◌>>=◌, ◌>>◌, raise_if}

-- The body is kept as its serialized text.
pub record StoredResponse : Type 0 where
  pub status_code : ℕ
  pub body : String
  pub headers : List (String × String)

-- The column `state`, with the columns that its value fills.
pub data KeyState : Type 0 where
  in_progress : KeyState
  completed : StoredResponse → KeyState

-- A row of `idempotency_key` of one organization; times are seconds.
pub record KeyRow : Type 0 where
  pub key : String
  pub endpoint : String
  pub request_hash : String
  pub created_at : ℕ
  pub state : KeyState

pub data ClaimResult : Type 0 where
  claimed busy reused : ClaimResult
  replayed : StoredResponse → ClaimResult

unfoldable pub existing : String → List KeyRow → Option KeyRow
existing key rows = find (λ r. r.key === key) rows

abbrev pub classify_state : KeyState → Bool → ClaimResult
classify_state in_progress same = busy
classify_state (completed response) same = if same then replayed response else reused

abbrev pub same_request : KeyRow → String → String → Bool
same_request row endpoint request_hash =
    row.endpoint === endpoint && row.request_hash === request_hash

-- `_classify`
unfoldable pub classify : KeyRow → String → String → ClaimResult
classify row endpoint request_hash =
    classify_state row.state (same_request row endpoint request_hash)

-- The row is not there: the advisory lock, which another request may hold, then the insertion. A
-- request that holds the lock conflicts with no other.
unfoldable pub claim_new :
    Bool → ℕ → String → String → String → List KeyRow → ClaimResult × List KeyRow
claim_new false now key endpoint request_hash rows = (busy, rows)
claim_new true now key endpoint request_hash rows = (
  claimed,
  rows
      ++ record {
        key = key;
        endpoint = endpoint;
        request_hash = request_hash;
        created_at = now;
        state = in_progress;
      }
        ∷ [],
)

abbrev pub claim_known :
    Option KeyRow → Bool → ℕ → String → String → String → List KeyRow → ClaimResult × List KeyRow
claim_known (some row) free now key endpoint request_hash rows =
    (classify row endpoint request_hash, rows)
claim_known none free now key endpoint request_hash rows =
    claim_new free now key endpoint request_hash rows

-- `claim`, where `free` is what `pg_try_advisory_xact_lock` answers.
unfoldable pub claim : Bool → ℕ → String → String → String → List KeyRow → ClaimResult × List KeyRow
claim free now key endpoint request_hash rows =
    claim_known (existing key rows) free now key endpoint request_hash rows

abbrev pub is_open : KeyState → Bool
is_open in_progress = true
is_open (completed _) = false

unfoldable pub complete_rows : String → StoredResponse → List KeyRow → List KeyRow
complete_rows key response [] = []
complete_rows key response (r ∷ rs) =
    (if r.key === key && is_open r.state then record r { state = completed response } else r)
    ∷ complete_rows key response rs

-- `complete`: the key is the primary key, so that the one row in progress is updated, or none.
unfoldable pub complete : String → StoredResponse → List KeyRow → Result (List KeyRow)
complete key response rows = do
  raise_if (not (any (λ r. r.key === key && is_open r.state) rows)) runtime_error
  ok (complete_rows key response rows)

-- IDEMPOTENCY_TTL
abbrev pub retention : ℕ
retention = 24 * 60 * 60

-- created_at < now - IDEMPOTENCY_TTL
abbrev pub expired : ℕ → KeyRow → Bool
expired now r = ltb (r.created_at + retention) now

unfoldable pub unexpired : ℕ → List KeyRow → List KeyRow
unexpired now [] = []
unexpired now (r ∷ rs) = let rest = unexpired now rs in if expired now r then rest else r ∷ rest

-- `delete_expired`, with the number of the rows that it deletes.
unfoldable pub delete_expired : ℕ → List KeyRow → ℕ × List KeyRow
delete_expired now rows = (length rows - length (unexpired now rows), unexpired now rows)
