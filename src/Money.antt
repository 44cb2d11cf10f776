-- ===== src/Money.antt =====
-- apps/api/src/flo/kernel/money.py: currency exponents, HALF_UP rounding and the split of an amount
-- over integer ratios. An amount counts ten-thousandths, so a minor unit is a power of ten.
pub mod Currencies
pub mod Rounding
pub mod Allocation
pub mod Tests
use Prim.Native.Char.{code}
use Prim.Native.String
use Currencies.{iso4217}
use xlr8_flo.Common.{
  ℕ, zero, suc, ◌+◌, ◌-◌, ◌*◌, ◌/◌, ◌%◌, ◌^◌, String, Bool, true, false, not, ◌&&◌, ◌||◌, Option,
  none, some, List, [], ◌∷◌, map, ltb, leb, ◌==◌, if◌then◌else◌, length, any, all, find,
}
use xlr8_flo.Common.Int.{
  ℤ, pos, negsuc, pos_part, ◌+ℤ◌, ◌-ℤ◌, neg, magnitude, with_sign, sum, ltb_ℤ,
}
use xlr8_flo.Common.Equality.{◌===◌, String_eq, ℤ_eq}
use xlr8_flo.Common.Problems.{
  Problem, value_error, conflict, Result, ok, err, ◌>>=◌, ◌>>◌, raise_if,
}

-- The code points of a text.
abbrev codes : String → List ℕ
codes String.[] = []
codes (String.◌∷◌ c s) = code c ∷ codes s

unfoldable pub is_upper : ℕ → Bool
is_upper c = leb b'A' c && leb c b'Z'

unfoldable pub is_lower : ℕ → Bool
is_lower c = leb b'a' c && leb c b'z'

-- `len(currency) == 3 and currency.isascii() and currency.isupper()`
unfoldable pub is_code : String → Bool
unfolding is_upper is_lower any all
is_code s =
    let cs = codes s in
    length cs == 3 && all (λ c. ltb c 128) cs && any is_upper cs && not (any is_lower cs)

unfoldable pub exponent_of : String → List (String × ℕ) → Option ℕ
exponent_of c [] = none
exponent_of c ((k, e) ∷ rest) = if c === k then some e else exponent_of c rest

unfoldable pub currency_exponent : String → Result ℕ
currency_exponent currency = do
  raise_if (not (is_code currency)) value_error
  elim (exponent_of currency iso4217) [ none ↦ err value_error | some e ↦ ok e ]

-- `Decimal(1).scaleb(-exponent)`, in ten-thousandths; the bundled exponents are 0 to 4.
abbrev pub minor_unit : ℕ → ℕ
minor_unit exponent = 10 ^ (4 - exponent)

-- ROUND_HALF_UP of a magnitude to a multiple of `unit`: a tie goes away from zero.
unfoldable pub half_up : ℕ → ℕ → ℕ
half_up unit n = (n + unit / 2) / unit * unit

unfoldable pub round_half_up : ℕ → ℤ → ℤ
round_half_up unit amount = with_sign amount (half_up unit (magnitude amount))

unfoldable pub quantize : ℤ → String → Result ℤ
unfolding round_half_up
quantize amount currency = do
  exponent ← currency_exponent currency
  ok (round_half_up (minor_unit exponent) amount)

pub record Money : Type 0 where
  pub amount : ℤ
  pub currency : String

-- `Money.__post_init__`
unfoldable pub new_money : ℤ → String → Result Money
new_money amount currency = do
  currency_exponent currency
  ok (record { amount = amount; currency = currency })

-- `_require_same_currency`; `CurrencyMismatch` is a ValueError.
unfoldable pub require_same_currency : Money → Money → Result (Unit {0})
require_same_currency a b = raise_if (not (a.currency === b.currency)) value_error

-- `Money.__add__`
unfoldable pub add : Money → Money → Result Money
unfolding require_same_currency new_money
add a b = do require_same_currency a b; new_money (a.amount +ℤ b.amount) a.currency

-- `Money.__sub__`
unfoldable pub subtract : Money → Money → Result Money
unfolding require_same_currency new_money
subtract a b = do require_same_currency a b; new_money (a.amount -ℤ b.amount) a.currency

-- (amount * ratio / total).quantize(unit, ROUND_DOWN)
unfoldable pub share : ℕ → ℕ → ℤ → ℕ → ℤ
share unit total amount ratio = with_sign amount (magnitude amount * ratio / (total * unit) * unit)

-- `sum(ratios)`
unfoldable pub total_ratio : List ℕ → ℕ
total_ratio [] = 0
total_ratio (r ∷ rs) = r + total_ratio rs

-- `for index in eligible_indexes[:count]: amounts[index] += adjustment`
unfoldable pub adjust : ℕ → ℤ → List ℕ → List ℤ → List ℤ
adjust count adjustment (r ∷ rs) (a ∷ amounts) =
    let skipped = r == 0 || count == 0 in
    (if skipped then a else a +ℤ adjustment)
    ∷ adjust (if skipped then count else count - 1) adjustment rs amounts
adjust count adjustment _ amounts = amounts

-- The amounts of `allocate`, before they are wrapped in `Money`.
unfoldable pub allocate_amounts : ℕ → ℤ → List ℕ → List ℤ
unfolding share total_ratio
allocate_amounts unit amount ratios =
    let amounts = map (share unit (total_ratio ratios) amount) ratios in
    let remainder = amount -ℤ sum amounts in
    let remainder_units = with_sign remainder (magnitude remainder / unit) in
    let adjustment = if ltb_ℤ (pos 0) remainder_units then pos unit else neg (pos unit) in
    adjust (magnitude remainder_units) adjustment ratios amounts

unfoldable pub wrap : String → List ℤ → Result (List Money)
wrap currency [] = ok []
wrap currency (a ∷ amounts) = do
  part ← new_money a currency
  rest ← wrap currency amounts
  ok (part ∷ rest)

-- `Money.allocate`
unfoldable pub allocate : Money → List ℤ → Result (List Money)
unfolding wrap
allocate money ratios = do
  raise_if (length ratios == 0) value_error
  raise_if (any (λ r. ltb_ℤ r (pos 0)) ratios || not (any (λ r. not (r === pos 0)) ratios))
      value_error
  rounded ← quantize money.amount money.currency
  raise_if (not (money.amount === rounded)) value_error
  exponent ← currency_exponent money.currency
  wrap money.currency (allocate_amounts (minor_unit exponent) money.amount (map pos_part ratios))
