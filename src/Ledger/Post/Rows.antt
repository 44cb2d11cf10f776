-- ===== src/Ledger/Post/Rows.antt =====
-- The checks of `post_entry` against the constraints of the table that they mirror
-- (apps/api/src/flo/modules/budget/ledger_rules.py).
use xlr8_flo.Common.{◌≡◌, refl, ap, ◌∙◌, true, not, Option, none, some, arith, not-false}
use xlr8_flo.Common.Int.{ℤ}
use xlr8_flo.Common.Problems.{ok, >>-eq-ok, ok-injective}
use xlr8_flo.Ledger.Types.{
  LedgerType, LedgerBucket, allocation, reservation, commitment, transfer, adjustment, release,
  reversal, LedgerEntry, bucket_allowed, LedgerType_eq, LedgerBucket_eq,
}
use xlr8_flo.Ledger.Tables.{Db, Balance}
use xlr8_flo.Ledger.Constraints.{sign_ok, type_bucket_ok}
use mathlib.Core.Path.{subst}
use xlr8_flo.Common.Equality.{ℤ_eq}
use xlr8_flo.Common.Problems.{raise_if}
use xlr8_flo.Ledger.Types.{default_bucket}
use xlr8_flo.Ledger.Post.{PostRequest, Resolved, resolve_as, check_bucket, wrong_sign}

-- An amount has the wrong sign for `post_entry` exactly when the sign check of the table, which lists
-- the types itself, refuses it.
pub wrong_sign-mirrors : (t : LedgerType) (x : ℤ) → wrong_sign t x ≡ not (sign_ok t x)
unfolding wrong_sign sign_ok
wrong_sign-mirrors allocation x = ground arith
wrong_sign-mirrors reservation x = ground arith
wrong_sign-mirrors commitment x = ground arith
wrong_sign-mirrors LedgerType.actual x = ground arith
wrong_sign-mirrors release x = ground arith
wrong_sign-mirrors reversal x = ground arith
wrong_sign-mirrors transfer x = ground arith
wrong_sign-mirrors adjustment x = ground arith

-- What the table of types of the program allows, the check of the table allows.
mirrors :
    (t : LedgerType) (b : LedgerBucket) → bucket_allowed t b ≡ true → type_bucket_ok t b ≡ true
mirrors t b h = ground arith

release_bucket_allowed :
    (given b : Option LedgerBucket) {k : LedgerBucket}
    → check_bucket release given b ≡ ok k
    → bucket_allowed release k ≡ true
unfolding check_bucket
release_bucket_allowed given none h = cc
release_bucket_allowed given (some b) {k} h =
    let (allowed, h₁) = >>-eq-ok _ _ _ h in
    subst (λ j. bucket_allowed release j ≡ true) (ok-injective h₁) (not-false _ allowed)

-- The types other than release and reversal take the bucket of their type.
own_bucket_allowed :
    (t : LedgerType) (given : Option LedgerBucket) {k : LedgerBucket}
    → check_bucket t given (elim given [ none ↦ some (default_bucket t) | some b ↦ some b ]) ≡ ok k
    → bucket_allowed t k ≡ true
unfolding check_bucket raise_if
own_bucket_allowed release given h = release_bucket_allowed given _ h
own_bucket_allowed reversal given h = refl
own_bucket_allowed t none {k} h = subst (λ j. bucket_allowed t j ≡ true) (ok-injective h) refl
own_bucket_allowed t (some b) h = cc

derived_bucket :
    (t : LedgerType) (req : PostRequest) (b : Balance) (known : Option LedgerEntry) (db : Db)
    (r : Resolved) (k : LedgerBucket)
    → resolve_as t req b known db ≡ ok r
    → check_bucket t req.bucket r.bucket ≡ ok k
    → bucket_allowed t k ≡ true
unfolding resolve_as
derived_bucket release req b known db r k h c = release_bucket_allowed req.bucket r.bucket c
derived_bucket reversal req b known db r k h c = refl
derived_bucket t req b known db r k h c =
    own_bucket_allowed t req.bucket
      (ap (λ x. check_bucket t req.bucket x.bucket) (ok-injective h) ∙ c)

-- The bucket that `post_entry` derives and accepts by its own table of types is one that the bucket
-- check of the database, which lists types and buckets itself, allows for the type of the entry.
pub derived_bucket_allowed :
    (t : LedgerType) (req : PostRequest) (b : Balance) (known : Option LedgerEntry) (db : Db)
    (r : Resolved) (k : LedgerBucket)
    → resolve_as t req b known db ≡ ok r
    → check_bucket t req.bucket r.bucket ≡ ok k
    → type_bucket_ok t k ≡ true
derived_bucket_allowed t req b known db r k h c =
    mirrors t k (derived_bucket t req b known db r k h c)
