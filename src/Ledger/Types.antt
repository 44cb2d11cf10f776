-- ===== src/Ledger/Types.antt =====
-- apps/api/src/flo/modules/budget/models.py and ledger_rules.py: rows, enums and the type rules.
use xlr8_flo.Common.{ℕ, String, ◌≡◌, ◌↔◌, Bool, true, false, ◌&&◌, Option, arith, ◌==◌, and_elim}
use xlr8_flo.Common.Int.{ℤ}
use xlr8_flo.Common.Equality.{Eq, ◌===◌, ===_refl, ===_sound, ℕ_eq, String_eq, ℤ_eq, Option_eq}

pub data LedgerType : Type 0 where
  allocation reservation commitment actual release reversal transfer adjustment : LedgerType

pub data LedgerBucket : Type 0 where
  allocated reserved committed actual : LedgerBucket

abbrev type_rank : LedgerType → ℕ
type_rank allocation = 0
type_rank reservation = 1
type_rank commitment = 2
type_rank LedgerType.actual = 3
type_rank release = 4
type_rank reversal = 5
type_rank transfer = 6
type_rank adjustment = 7

abbrev pub type_beq : LedgerType → LedgerType → Bool
type_beq a b = type_rank a == type_rank b

pub type_beq_iff : (a b : LedgerType) → (type_beq a b ≡ true) ↔ (a ≡ b)
type_beq_iff a b = (λ h. ground arith, λ h. ground arith)

instance abbrev pub LedgerType_eq : Eq LedgerType
LedgerType_eq = record { equal = type_beq; equal_iff = type_beq_iff }

abbrev bucket_rank : LedgerBucket → ℕ
bucket_rank allocated = 0
bucket_rank reserved = 1
bucket_rank committed = 2
bucket_rank LedgerBucket.actual = 3

abbrev pub bucket_beq : LedgerBucket → LedgerBucket → Bool
bucket_beq a b = bucket_rank a == bucket_rank b

pub bucket_beq_iff : (a b : LedgerBucket) → (bucket_beq a b ≡ true) ↔ (a ≡ b)
bucket_beq_iff a b = (λ h. ground arith, λ h. ground arith)

instance abbrev pub LedgerBucket_eq : Eq LedgerBucket
LedgerBucket_eq = record { equal = bucket_beq; equal_iff = bucket_beq_iff }

-- `bucket in BUCKET_FOR_TYPE[entry_type]`
abbrev pub bucket_allowed : LedgerType → LedgerBucket → Bool
bucket_allowed allocation allocated = true
bucket_allowed transfer allocated = true
bucket_allowed adjustment allocated = true
bucket_allowed reservation reserved = true
bucket_allowed commitment committed = true
bucket_allowed LedgerType.actual LedgerBucket.actual = true
bucket_allowed release reserved = true
bucket_allowed release committed = true
bucket_allowed reversal _ = true
bucket_allowed _ _ = false

-- `next(iter(BUCKET_FOR_TYPE[entry_type]))`, which is asked for where the set has one member.
abbrev pub default_bucket : LedgerType → LedgerBucket
default_bucket reservation = reserved
default_bucket commitment = committed
default_bucket LedgerType.actual = LedgerBucket.actual
default_bucket release = reserved
default_bucket _ = allocated

-- +1, -1 or None
pub data Sign : Type 0 where
  positive negative either : Sign

abbrev pub expected_sign : LedgerType → Sign
expected_sign allocation = positive
expected_sign reservation = positive
expected_sign commitment = positive
expected_sign LedgerType.actual = positive
expected_sign release = negative
expected_sign _ = either

-- The columns of PAYLOAD_FIELDS other than bucket, amount and currency.
pub record Links : Type 0 where
  pub entry_type : LedgerType
  pub project_id : ℕ
  pub source_type : String
  pub source_id : Option ℕ
  pub effective_date : ℕ
  pub transfer_group_id : Option ℕ
  pub reverses_entry_id : Option ℕ
  pub releases_entry_id : Option ℕ
  pub converts_entry_id : Option ℕ
  pub reason : Option String
  pub department_code : String
  pub ledger_account_code : String

-- A row of `ledger_entry`, less `org_id` (one tenant is modelled) and `posted_at`.
pub record LedgerEntry : Type 0 where
  pub id : ℕ
  pub bu_id : ℕ
  pub actor_id : ℕ
  pub idempotency_key : String
  pub bucket : LedgerBucket
  pub amount : ℤ
  pub currency : String
  pub links : Links
  pub open links use *

-- `all(getattr(existing, field) == payload[field])` over those columns
unfoldable pub same_links : Links → Links → Bool
same_links a b =
    a.entry_type === b.entry_type
    && a.project_id === b.project_id
    && a.source_type === b.source_type
    && a.source_id === b.source_id
    && a.effective_date === b.effective_date
    && a.transfer_group_id === b.transfer_group_id
    && a.reverses_entry_id === b.reverses_entry_id
    && a.releases_entry_id === b.releases_entry_id
    && a.converts_entry_id === b.converts_entry_id
    && a.reason === b.reason
    && a.department_code === b.department_code
    && a.ledger_account_code === b.ledger_account_code

pub same_links_refl : (a : Links) → same_links a a ≡ true
unfolding same_links
same_links_refl a = simp (===_refl)

-- Equal columns are equal rows.
pub same_links_sound : (a b : Links) → same_links a b ≡ true → a ≡ b
unfolding same_links
same_links_sound a b h₀ =
    let (h1, p11) = and_elim _ _ h₀ in
    let (h2, p10) = and_elim _ _ h1 in
    let (h3, p9) = and_elim _ _ h2 in
    let (h4, p8) = and_elim _ _ h3 in
    let (h5, p7) = and_elim _ _ h4 in
    let (h6, p6) = and_elim _ _ h5 in
    let (h7, p5) = and_elim _ _ h6 in
    let (h8, p4) = and_elim _ _ h7 in
    let (h9, p3) = and_elim _ _ h8 in
    let (h10, p2) = and_elim _ _ h9 in
    let (h11, p1) = and_elim _ _ h10 in
    λ i. record {
      entry_type = ===_sound a.entry_type b.entry_type h11 i;
      project_id = ===_sound a.project_id b.project_id p1 i;
      source_type = ===_sound a.source_type b.source_type p2 i;
      source_id = ===_sound a.source_id b.source_id p3 i;
      effective_date = ===_sound a.effective_date b.effective_date p4 i;
      transfer_group_id = ===_sound a.transfer_group_id b.transfer_group_id p5 i;
      reverses_entry_id = ===_sound a.reverses_entry_id b.reverses_entry_id p6 i;
      releases_entry_id = ===_sound a.releases_entry_id b.releases_entry_id p7 i;
      converts_entry_id = ===_sound a.converts_entry_id b.converts_entry_id p8 i;
      reason = ===_sound a.reason b.reason p9 i;
      department_code = ===_sound a.department_code b.department_code p10 i;
      ledger_account_code = ===_sound a.ledger_account_code b.ledger_account_code p11 i;
    }
