-- ===== src/Money/Rounding.antt =====
-- HALF_UP rounding: apps/api/src/flo/kernel/money.py `quantize`.
use mathlib.Core.Path.{subst}
use native.Mathlib.Nat.{one-le-pow}
use xlr8_flo.Common.{
  ℕ, zero, suc, ◌+◌, ◌*◌, ◌-◌, ◌/◌, ◌%◌, ◌≤◌, ◌<◌, String, ◌≡◌, refl, ap, sym, ◌∙◌, Bool, true,
  List, [], ◌∷◌, some, inl, inr, Option-cases, arith, leb, ◌&&◌,
}
use xlr8_flo.Common.Int.{ℤ, pos, negsuc, magnitude, neg, ◌-ℤ◌, sub_ℕ}
use xlr8_flo.Common.Problems.{ok, >>=-eq-ok, ok-injective}
use xlr8_flo.Common.Equality.{String_eq}
use xlr8_flo.Money.Currencies.{iso4217}
use xlr8_flo.Money.{quantize, currency_exponent, exponent_of, minor_unit, half_up, round_half_up}

half_up_idem : (u n : ℕ) → 0 < u → half_up u (half_up u n) ≡ half_up u n
unfolding half_up
half_up_idem u n h = grind arith

half_up-zero : (u : ℕ) → 0 < u → half_up u 0 ≡ 0
unfolding half_up
half_up-zero u h = grind arith

half_up_bounds :
    (u n : ℕ)
    → 0 < u
    → (half_up u n % u ≡ 0) × (half_up u n ≤ n + u / 2) × (n < half_up u n + (u + 1) / 2)
unfolding half_up
half_up_bounds u n h = (grind arith, grind arith, grind arith)

exponents_bounded : List (String × ℕ) → Bool
exponents_bounded [] = true
exponents_bounded ((k, e) ∷ rest) = leb e 4 && exponents_bounded rest

iso4217-bounded : exponents_bounded iso4217 ≡ true
unfolding exponents_bounded iso4217
iso4217-bounded = refl

exponent_of-le :
    (c : String) (table : List (String × ℕ)) (e : ℕ)
    → exponents_bounded table ≡ true
    → exponent_of c table ≡ some e
    → e ≤ 4
unfolding exponent_of exponents_bounded
exponent_of-le c [] e b h = cc
exponent_of-le c ((k, d) ∷ rest) e b h = ground (arith, exponent_of-le c rest e)

-- The bundled exponents, as `_currency_exponents` validates them, are at most 4.
pub currency_exponent-le : (c : String) (e : ℕ) → currency_exponent c ≡ ok e → e ≤ 4
unfolding currency_exponent
currency_exponent-le c e h = elim (Option-cases (exponent_of c iso4217)) [
  | inl missing ↦ ground arith
  | inr (d, found) ↦ ground (arith, exponent_of-le c iso4217 d iso4217-bounded found)
]

pub minor_unit-pos : (e : ℕ) → 0 < minor_unit e
minor_unit-pos e = one-le-pow (4 - e) 10 (omega arith)

module _ (u : ℕ) (p : 0 < u) where
  magnitude-round : (a : ℤ) → magnitude (round_half_up u a) ≡ half_up u (magnitude a)
  unfolding round_half_up
  magnitude-round (pos n) = omega arith
  magnitude-round (negsuc n) = ground arith

  -- Rounding a rounded amount changes nothing.
  pub round_half_up_idem : (a : ℤ) → round_half_up u (round_half_up u a) ≡ round_half_up u a
  unfolding round_half_up
  round_half_up_idem (pos n) = ap pos (half_up_idem u n p)
  round_half_up_idem (negsuc n) = ground (arith, half_up_idem u (suc n) p, half_up-zero u p)

  -- Rounding commutes with the sign.
  pub round_half_up-neg : (a : ℤ) → round_half_up u (neg a) ≡ neg (round_half_up u a)
  unfolding round_half_up neg
  round_half_up-neg (pos zero) = ground (arith, half_up-zero u p)
  round_half_up-neg (pos (suc n)) = ground arith
  round_half_up-neg (negsuc n) = ground arith

-- The distance from an amount to the rounded amount is that of their sizes.
difference :
    (u n h : ℕ) → h ≤ n + u / 2 → n < h + (u + 1) / 2 → 0 < u → 2 * magnitude (pos h -ℤ pos n) ≤ u
unfolding ◌-ℤ◌
difference u n h above below p = ground arith

difference-neg :
    (u n h : ℕ)
    → h ≤ suc n + u / 2
    → suc n < h + (u + 1) / 2
    → 0 < u
    → 2 * magnitude (sub_ℕ 0 h -ℤ negsuc n) ≤ u
unfolding ◌-ℤ◌
difference-neg u n h above below p = ground arith

-- A rounded amount is at most half a unit from the amount, on its side of zero.
round_half_up-near : (u : ℕ) → 0 < u → (a : ℤ) → 2 * magnitude (round_half_up u a -ℤ a) ≤ u
unfolding round_half_up
round_half_up-near u p (pos n) =
    let (_, above, below) = half_up_bounds u n p in difference u n (half_up u n) above below p
round_half_up-near u p (negsuc n) =
    let (_, above, below) = half_up_bounds u (suc n) p in
    difference-neg u n (half_up u (suc n)) above below p

-- A successful `quantize` rounds to the minor unit of the currency.
pub quantize-ok :
    (a : ℤ) (c : String) {q : ℤ}
    → quantize a c ≡ ok q
    → (e : ℕ) × (currency_exponent c ≡ ok e) × (q ≡ round_half_up (minor_unit e) a)
unfolding quantize
quantize-ok a c h =
    let (e, found, same) = >>=-eq-ok (currency_exponent c) _ h in (e, found, cc same)

pub quantize_of_exponent :
    (a : ℤ) (c : String) (e : ℕ)
    → currency_exponent c ≡ ok e
    → quantize a c ≡ ok (round_half_up (minor_unit e) a)
unfolding quantize
quantize_of_exponent a c e h = rw h

-- Quantizing an amount that came out of `quantize` gives the same amount.
pub quantize_idem : (a : ℤ) (c : String) {q : ℤ} → quantize a c ≡ ok q → quantize q c ≡ ok q
quantize_idem a c {q} h =
    let (e, found, same) = quantize-ok a c h in
    quantize_of_exponent q c e found
    ∙ ap ok (
        ap (round_half_up (minor_unit e)) same
        ∙ round_half_up_idem (minor_unit e) (minor_unit-pos e) a
        ∙ sym same)

-- An amount that `quantize` leaves alone is a whole number of minor units.
pub minor_unit-whole :
    (a : ℤ) (c : String) (e : ℕ)
    → quantize a c ≡ ok a
    → currency_exponent c ≡ ok e
    → magnitude a % minor_unit e ≡ 0
minor_unit-whole a c e h found =
    let (d, found', same) = quantize-ok a c h in
    let exponent : d ≡ e = ok-injective (sym found' ∙ found) in
    let u = minor_unit d in
    let p = minor_unit-pos d in
    let (whole, _, _) = half_up_bounds u (magnitude a) p in
    subst (λ k. magnitude a % minor_unit k ≡ 0) exponent
      (rw (ap magnitude same ∙ magnitude-round u p a) whole)

-- When `quantize` succeeds, the result is a whole number of minor units of the currency, it differs
-- from the amount by at most half a unit, it lies at most half a unit above the amount in magnitude
-- and less than half a unit (rounded up to a whole ten-thousandth) below it, and negating the amount
-- negates the result.
pub quantize_rounds :
    (a : ℤ) (c : String) {q : ℤ}
    → quantize a c ≡ ok q
    → (e : ℕ) × (currency_exponent c ≡ ok e)
      × (magnitude q % minor_unit e ≡ 0)
      × (2 * magnitude (q -ℤ a) ≤ minor_unit e)
      × (magnitude q ≤ magnitude a + minor_unit e / 2)
      × (magnitude a < magnitude q + (minor_unit e + 1) / 2)
      × (quantize (neg a) c ≡ ok (neg q))
quantize_rounds a c {q} h =
    let (e, found, same) = quantize-ok a c h in
    let u = minor_unit e in
    let p = minor_unit-pos e in
    let size = ap magnitude same ∙ magnitude-round u p a in
    let (whole, above, below) = half_up_bounds u (magnitude a) p in
    (
      e,
      found,
      rw size whole,
      subst (λ r. 2 * magnitude (r -ℤ a) ≤ u) (sym same) (round_half_up-near u p a),
      rw size above,
      rw size below,
      quantize_of_exponent (neg a) c e found ∙ ap ok (round_half_up-neg u p a ∙ ap neg (sym same)),
    )
