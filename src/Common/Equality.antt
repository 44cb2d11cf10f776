-- ===== src/Common/Equality.antt =====
-- Python's `==` on the values that the models compare, as an interface with its law.
use text.Mathlib.Text.{◌==◌ as str_eq}
use text.Mathlib.TextEquality.{eq_iff}
use Prim.Native.Nat.{ℕ}
use Prim.Native.String.{String}
use mathlib.Core.Path.{◌≡◌, refl}
use mathlib.Core.Logic.{◌↔◌}
use mathlib.Core.Bool.{Bool, true, false, ◌&&◌}
use mathlib.Core.Option.{Option, none, some}
use native.Mathlib.Omega.{arith}
use xlr8_flo.Common.Tests.{◌==◌ as nat_eq, ==_iff}
use xlr8_flo.Common.Int.{ℤ, pos_part, neg_part}

pub record Eq {ℓ} (A : Type ℓ) : Type ℓ where
  pub equal : A → A → Bool
  pub equal_iff : (x y : A) → (equal x y ≡ true) ↔ (x ≡ y)

infix 50 ◌===◌
abbrev pub ◌===◌ {ℓ} : {A : Type ℓ} ⦃e : Eq A⦄ → A → A → Bool
◌===◌ ⦃e⦄ = e.equal

pub ===_refl {ℓ} : {A : Type ℓ} ⦃e : Eq A⦄ (a : A) → (a === a) ≡ true
===_refl ⦃e⦄ a = (e.equal_iff a a).1 refl

pub ===_sound {ℓ} : {A : Type ℓ} ⦃e : Eq A⦄ (a b : A) → (a === b) ≡ true → a ≡ b
===_sound ⦃e⦄ a b = (e.equal_iff a b).0

instance abbrev pub ℕ_eq : Eq ℕ
ℕ_eq = record { equal = nat_eq; equal_iff = ==_iff }

instance abbrev pub String_eq : Eq String
String_eq = record { equal = str_eq; equal_iff = eq_iff }

abbrev pub ℤ_beq : ℤ → ℤ → Bool
ℤ_beq a b = nat_eq (pos_part a) (pos_part b) && nat_eq (neg_part a) (neg_part b)

pub ℤ_beq_iff : (a b : ℤ) → (ℤ_beq a b ≡ true) ↔ (a ≡ b)
ℤ_beq_iff a b = ground arith

instance abbrev pub ℤ_eq : Eq ℤ
ℤ_eq = record { equal = ℤ_beq; equal_iff = ℤ_beq_iff }

abbrev pub Bool_beq : Bool → Bool → Bool
Bool_beq true true = true
Bool_beq false false = true
Bool_beq _ _ = false

pub Bool_beq_iff : (a b : Bool) → (Bool_beq a b ≡ true) ↔ (a ≡ b)
Bool_beq_iff a b = (λ h. ground arith, λ h. ground arith)

instance abbrev pub Bool_eq : Eq Bool
Bool_eq = record { equal = Bool_beq; equal_iff = Bool_beq_iff }

abbrev pub Option_beq {ℓ} : {A : Type ℓ} ⦃e : Eq A⦄ → Option A → Option A → Bool
Option_beq none none = true
Option_beq (some a) (some b) = a === b
Option_beq _ _ = false

pub Option_beq_iff {ℓ} :
    {A : Type ℓ} ⦃e : Eq A⦄ (a b : Option A) → (Option_beq a b ≡ true) ↔ (a ≡ b)
Option_beq_iff none none = (λ h. refl, λ h. refl)
Option_beq_iff none (some b) = (λ h. cc, λ h. cc)
Option_beq_iff (some a) none = (λ h. cc, λ h. cc)
Option_beq_iff ⦃e⦄ (some a) (some b) =
    (λ h. cc ((e.equal_iff a b).0 h), λ h. (e.equal_iff a b).1 (cc))

instance abbrev pub Option_eq {ℓ} : {A : Type ℓ} ⦃e : Eq A⦄ → Eq (Option A)
Option_eq = record { equal = Option_beq; equal_iff = Option_beq_iff }
