-- ===== src/Money/Tests.antt =====
-- The arithmetic of money at work: yen have no minor unit, euros have cents.
use xlr8_flo.Common.{ℕ, ◌+◌, ◌*◌, ◌≤◌, ◌<◌, ◌/◌, ◌%◌, ◌≡◌, refl, List, [], ◌∷◌, length, any}
use xlr8_flo.Common.Int.{ℤ, pos, neg, magnitude, ◌+ℤ◌, ◌-ℤ◌, sum}
use xlr8_flo.Common.Problems.{ok, raise_if}
use xlr8_flo.Money.Currencies.{iso4217}
use xlr8_flo.Money.{
  Money, minor_unit, is_upper, is_lower, is_code, exponent_of, currency_exponent, half_up,
  round_half_up, quantize, new_money, share, total_ratio, adjust, allocate_amounts, wrap, allocate,
}
use xlr8_flo.Money.Rounding.{quantize_rounds}
use xlr8_flo.Money.Allocation.{amounts, AllIn, allocate_conserves}

-- 2.5 cents round up to 3.
rounds_up : quantize (pos 250) "EUR" ≡ ok (pos 300)
unfolding is_upper is_lower is_code exponent_of currency_exponent half_up round_half_up quantize
    iso4217 raise_if
rounds_up = refl

quantize_rounds_example :
    (e : ℕ) × (currency_exponent "EUR" ≡ ok e)
    × (300 % minor_unit e ≡ 0)
    × (2 * magnitude (pos 300 -ℤ pos 250) ≤ minor_unit e)
    × (300 ≤ 250 + minor_unit e / 2)
    × (250 < 300 + (minor_unit e + 1) / 2)
    × (quantize (neg (pos 250)) "EUR" ≡ ok (neg (pos 300)))
quantize_rounds_example = quantize_rounds (pos 250) "EUR" rounds_up

abbrev euros : ℤ → Money
euros x = record { amount = x; currency = "EUR" }

abbrev ratios : List ℤ
ratios = pos 1 ∷ pos 0 ∷ pos 1 ∷ pos 1 ∷ []

-- One euro among three, and nothing for the second.
abbrev parts : List Money
parts = euros (pos 3400) ∷ euros (pos 0) ∷ euros (pos 3300) ∷ euros (pos 3300) ∷ []

splits : allocate (euros (pos 10000)) ratios ≡ ok parts
unfolding is_upper is_lower is_code exponent_of currency_exponent half_up round_half_up quantize
    iso4217 raise_if any sum ◌+ℤ◌ ◌-ℤ◌ neg new_money share total_ratio adjust allocate_amounts wrap
    allocate
splits = refl

allocate_conserves_example :
    (sum (amounts parts) ≡ pos 10000) × (length parts ≡ length ratios) × AllIn "EUR" parts
allocate_conserves_example = allocate_conserves (euros (pos 10000)) ratios splits
