-- ===== src/Common/Problems.antt =====
-- apps/api/src/flo/kernel/errors: a command that raises is a value of `Result`. A transaction that
-- raises is rolled back, so no state comes back beside a problem.
use Prim.Native.String.{String}
use mathlib.Core.Path.{◌≡◌, refl}
use mathlib.Core.Bool.{Bool, true, false}
use mathlib.Core.Logic.{◌⊎◌, inl, inr}
use xlr8_flo.Common.Tests.{if◌then◌else◌}
use xlr8_flo.Common.Int.{ℤ}

-- The exceptions that leave the modelled code: `ProblemError` with its code and the label under
-- `checks["problem"]`, Python's own errors, a constraint of the database, and the `ConditionError` of
-- a field.
pub data Problem : Type 0 where
  not_found bad_request unauthorized assertion_error type_error value_error runtime_error : Problem
  validation_failed conflict idempotency_key_reused forbidden integrity_error : String → Problem
  key_error : Problem
  insufficient_budget : ℤ → ℤ → Problem
  condition_error : String → Problem

-- A command raises a problem, or returns a value.
pub data Result {ℓ} (V : Type ℓ) : Type ℓ where
  err : Problem → Result V
  ok : V → Result V

-- The code returned.
abbrev pub is_ok {ℓ} : {A : Type ℓ} → Result A → Bool
is_ok (ok _) = true
is_ok (err _) = false

pub is_ok-ok {ℓ} : {A : Type ℓ} (m : Result A) → is_ok m ≡ true → (a : A) × (m ≡ ok a)
is_ok-ok (ok a) h = (a, refl)
is_ok-ok (err e) h = cc

infixl 5 ◌>>=◌ ◌>>◌
abbrev pub ◌>>=◌ {ℓ κ} : {V : Type ℓ} {W : Type κ} → Result V → (V → Result W) → Result W
err problem >>= later = err problem
ok value >>= later = later value

-- The answer is dropped.
abbrev pub ◌>>◌ {ℓ κ} : {V : Type ℓ} {W : Type κ} → Result V → Result W → Result W
first >> second = first >>= λ _. second

-- `if bad: raise e`
unfoldable pub raise_if : Bool → Problem → Result (Unit {0})
raise_if false problem = ok tt
raise_if true problem = err problem

pub raise_if-ok : (b : Bool) (e : Problem) {u : Unit {0}} → raise_if b e ≡ ok u → b ≡ false
unfolding raise_if
raise_if-ok true e h = cc
raise_if-ok false e h = refl

-- Inversion of a successful chain, one step at a time.
pub >>=-eq-ok {ℓ κ} :
    {V : Type ℓ} {W : Type κ} (first : Result V) (later : V → Result W) {w : W}
    → (first >>= later) ≡ ok w
    → (v : V) × (first ≡ ok v) × (later v ≡ ok w)
>>=-eq-ok (err problem) later h = cc
>>=-eq-ok (ok v) later h = (v, refl, h)

pub >>-eq-ok {ℓ} :
    {B : Type ℓ} (b : Bool) (e : Problem) (k : Result B) {v : B}
    → (raise_if b e >> k) ≡ ok v
    → (b ≡ false) × (k ≡ ok v)
unfolding raise_if
>>-eq-ok true e k h = cc
>>-eq-ok false e k h = (refl, h)

-- A successful conditional: which branch it was.
pub if-ok {ℓ} :
    {A : Type ℓ} (c : Bool) (x y : Result A) {v : A}
    → (if c then x else y) ≡ ok v
    → ((c ≡ true) × (x ≡ ok v)) ⊎ ((c ≡ false) × (y ≡ ok v))
if-ok true x y h = inl (refl, h)
if-ok false x y h = inr (refl, h)

pub ok-injective {ℓ} : {A : Type ℓ} {a b : A} → ok a ≡ ok b → a ≡ b
ok-injective h = cc

pub err-ne-ok {ℓ} : {A : Type ℓ} {e : Problem} {a : A} → err e ≡ ok a → ⊥
err-ne-ok h = cc
