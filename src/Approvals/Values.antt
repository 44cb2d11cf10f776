-- ===== src/Approvals/Values.antt =====
-- The values that conditions compare: apps/api/src/flo/modules/approvals/schemas.py, with the texts
-- of amounts and dates that conditions.py reads. A Decimal counts ten-thousandths.
use Prim.Native.Char.{code}
use xlr8_flo.Common.{
  ℕ, ◌+◌, ◌-◌, ◌*◌, ◌%◌, ◌^◌, String, Bool, not, ◌&&◌, ◌||◌, Option, none, some, List, [], ◌∷◌, ltb,
  leb, ◌==◌, if◌then◌else◌, length, all,
}
use xlr8_flo.Common.Int.{ℤ, pos, neg}
use xlr8_flo.Money.{Money}

pub record Date : Type 0 where
  pub year : ℕ
  pub month : ℕ
  pub day : ℕ

-- A date is before another: `date.__lt__`.
abbrev pub date_lt : Date → Date → Bool
date_lt a b =
    ltb a.year b.year
    || a.year == b.year && (ltb a.month b.month || a.month == b.month && ltb a.day b.day)

abbrev pub date_eq : Date → Date → Bool
date_eq a b = a.year == b.year && a.month == b.month && a.day == b.day

-- The attributes of a document; an integer is a Decimal here, as `evaluate` makes it one.
pub data AttributeValue : Type 0 where
  text : String → AttributeValue
  decimal : ℤ → AttributeValue
  day_of : Date → AttributeValue
  boolean : Bool → AttributeValue
  null : AttributeValue
  code_list : List String → AttributeValue
  money : Money → AttributeValue

-- MoneyValue
pub record MoneyValue : Type 0 where
  pub amount : String
  pub currency : String

-- LeafCondition.value; `absent` is None.
pub data LeafValue : Type 0 where
  string : String → LeafValue
  flag : Bool → LeafValue
  priced : MoneyValue → LeafValue
  strings : List String → LeafValue
  absent : LeafValue

abbrev pub codes : String → List ℕ
codes String.[] = []
codes (String.◌∷◌ c s) = code c ∷ codes s

abbrev pub is_digit : ℕ → Bool
is_digit c = leb b'0' c && leb c b'9'

-- The digits at the head, and the rest.
unfoldable pub span_digits : List ℕ → List ℕ × List ℕ
span_digits [] = ([], [])
span_digits (c ∷ cs) =
    let (ds, rest) = span_digits cs in if is_digit c then (c ∷ ds, rest) else ([], c ∷ cs)

unfoldable pub number : ℕ → List ℕ → ℕ
number acc [] = acc
number acc (c ∷ cs) = number (10 * acc + (c - b'0')) cs

abbrev pub fraction : ℕ → List ℕ × List ℕ → Option ℕ
fraction whole (ds, []) =
    if leb 1 (length ds) && leb (length ds) 4
    then some (10000 * whole + number 0 ds * 10 ^ (4 - length ds))
    else none
fraction whole (ds, c ∷ cs) = none

abbrev pub after_whole : ℕ → List ℕ → Option ℕ
after_whole whole [] = some (10000 * whole)
after_whole whole (c ∷ cs) = if c == b'.' then fraction whole (span_digits cs) else none

abbrev pub unsigned : List ℕ × List ℕ → Option ℕ
unsigned (ds, rest) =
    if leb 1 (length ds) && leb (length ds) 14 then after_whole (number 0 ds) rest else none

abbrev pub negated : Option ℕ → Option ℤ
negated none = none
negated (some n) = some (neg (pos n))

abbrev pub positive : Option ℕ → Option ℤ
positive none = none
positive (some n) = some (pos n)

abbrev pub signed : List ℕ → Option ℤ
signed [] = none
signed (c ∷ cs) =
    if c == b'-'
    then negated (unsigned (span_digits cs))
    else positive (unsigned (span_digits (c ∷ cs)))

-- `re.fullmatch(r"-?[0-9]{1,14}(\.[0-9]{1,4})?", s)` and the Decimal that the text stands for.
unfoldable pub parse_amount : String → Option ℤ
parse_amount s = signed (codes s)

abbrev leap : ℕ → Bool
leap y = y % 4 == 0 && (not (y % 100 == 0) || y % 400 == 0)

abbrev month_days : ℕ → ℕ → ℕ
month_days y m =
    if m == 2
    then (if leap y then 29 else 28)
    else if m == 4 || m == 6 || m == 9 || m == 11
    then 30
    else 31

abbrev valid_date : Date → Bool
valid_date d =
    leb 1 d.year
    && leb 1 d.month
    && leb d.month 12
    && leb 1 d.day
    && leb d.day (month_days d.year d.month)

abbrev if_valid : Date → Option Date
if_valid d = if valid_date d then some d else none

-- The ten characters YYYY-MM-DD.
abbrev calendar : List ℕ → Option Date
calendar (a ∷ b ∷ c ∷ d ∷ s ∷ e ∷ f ∷ t ∷ g ∷ h ∷ []) =
    if all is_digit (a ∷ b ∷ c ∷ d ∷ e ∷ f ∷ g ∷ h ∷ []) && s == b'-' && t == b'-'
    then if_valid (record {
      year = number 0 (a ∷ b ∷ c ∷ d ∷ []);
      month = number 0 (e ∷ f ∷ []);
      day = number 0 (g ∷ h ∷ []);
    })
    else none
calendar _ = none

-- `date.fromisoformat` on a text of the form [0-9]{4}-[0-9]{2}-[0-9]{2}.
unfoldable pub from_iso : String → Option Date
unfolding all
from_iso s = calendar (codes s)
