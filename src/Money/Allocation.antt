-- ===== src/Money/Allocation.antt =====
-- The shares of an amount: Money.allocate (apps/api/src/flo/kernel/money.py).
use native.Mathlib.Nat.{mul-div-mul_right, mul-div_left}
use mathlib.Core.Path.{ap₂, subst}
use native.Mathlib.Nat.{div-add-mod'}
use xlr8_flo.Money.Rounding.{minor_unit-pos, minor_unit-whole}
use xlr8_flo.Common.{
  ℕ, zero, suc, ◌+◌, ◌-◌, ◌*◌, ◌/◌, ◌%◌, ◌≤◌, ◌<◌, String, ◌≡◌, refl, ap, sym, ◌∙◌, true, false,
  List, [], ◌∷◌, map, arith, ◌==◌, not, ◌||◌, if◌then◌else◌, length, length-map, any, not-false,
  or-false,
}
use xlr8_flo.Common.Int.{
  ℤ, pos, negsuc, ◌+ℤ◌, ◌-ℤ◌, magnitude, with_sign, neg, sum, int_laws, ltb_ℤ, pos_part,
}
use xlr8_flo.Common.Problems.{ok, >>=-eq-ok, >>-eq-ok, ok-injective}
use xlr8_flo.Common.Equality.{◌===◌, ===_sound, ℤ_eq}
use xlr8_flo.Money.{
  Money, currency_exponent, quantize, new_money, wrap, allocate, minor_unit, share, total_ratio,
  adjust, allocate_amounts,
}

-- The number of ratios that may receive a remainder unit.
eligible : List ℕ → ℕ
eligible [] = 0
eligible (r ∷ rs) = (if r == 0 then 0 else 1) + eligible rs

-- The whole units that the truncated shares give out.
whole_units : ℕ → ℕ → List ℕ → ℕ
whole_units n total [] = 0
whole_units n total (r ∷ rs) = n * r / total + whole_units n total rs

share_le : (n t r : ℕ) → 0 < t → t * (n * r / t) ≤ n * r
share_le n t r h = grind arith

whole_units-le : (n t : ℕ) (rs : List ℕ) → 0 < t → t * whole_units n t rs ≤ n * total_ratio rs
unfolding whole_units total_ratio
whole_units-le n t [] h = omega arith
whole_units-le n t (r ∷ rs) h = omega (arith, share_le n t r h, whole_units-le n t rs h)

share_lt : (n t r : ℕ) → 0 < t → n * r ≤ t * (n * r / t) + t * (if r == 0 then 0 else 1)
share_lt n t zero h = omega arith
share_lt n t (suc r) h = grind arith

whole_units-lt :
    (n t : ℕ) (rs : List ℕ) → 0 < t → n * total_ratio rs ≤ t * (whole_units n t rs + eligible rs)
unfolding whole_units total_ratio eligible
whole_units-lt n t [] h = omega arith
whole_units-lt n t (r ∷ rs) h = omega (arith, share_lt n t r h, whole_units-lt n t rs h)

-- `count` times an amount.
times : ℕ → ℤ → ℤ
times zero d = pos 0
times (suc count) d = d +ℤ times count d

times-pos : (k u : ℕ) → times k (pos u) ≡ pos (k * u)
unfolding times
times-pos zero u = ground arith
times-pos (suc k) u = rw (times-pos k u) (omega int_laws)

times-neg : (k u : ℕ) → times k (neg (pos u)) ≡ neg (pos (k * u))
unfolding times
times-neg zero u = omega int_laws
times-neg (suc k) u = rw (times-neg k u) (omega int_laws)

suc-==-zero : (r : ℕ) → (suc r == 0) ≡ false
suc-==-zero r = ground arith

suc-sub-one : (k : ℕ) → suc k - 1 ≡ k
suc-sub-one k = omega arith

-- The units that `adjust` hands out are all handed out, if enough ratios are eligible.
sum-adjust :
    (k : ℕ) (d : ℤ) (rs : List ℕ) (xs : List ℤ)
    → length xs ≡ length rs
    → k ≤ eligible rs
    → sum (adjust k d rs xs) ≡ sum xs +ℤ times k d
unfolding adjust eligible sum times
sum-adjust zero d [] xs same few = omega int_laws
sum-adjust (suc k) d [] xs same few = absurd (omega arith)
sum-adjust k d (r ∷ rs) [] same few = absurd (omega arith)
sum-adjust zero d (zero ∷ rs) (x ∷ xs) same few =
    rw (sum-adjust zero d rs xs (omega arith) (omega arith)) (omega int_laws)
sum-adjust (suc k) d (zero ∷ rs) (x ∷ xs) same few =
    rw (sum-adjust (suc k) d rs xs (omega arith) (omega arith)) (omega int_laws)
sum-adjust zero d (suc r ∷ rs) (x ∷ xs) same few =
    rw (suc-==-zero r) (rw (sum-adjust zero d rs xs (omega arith) (omega arith)) (omega int_laws))
sum-adjust (suc k) d (suc r ∷ rs) (x ∷ xs) same few =
    rw (suc-==-zero r, suc-==-zero k, suc-sub-one k)
      (rw (sum-adjust k d rs xs (omega arith) (grind arith)) (omega int_laws))

-- The shares of `units` minor units, in units.
share_units :
    (u t n r : ℕ) (a : ℤ)
    → 0 < u
    → magnitude a ≡ n * u
    → share u t a r ≡ with_sign a (n * r / t * u)
unfolding share
share_units u t n r a p h =
    ap (λ q. with_sign a (q * u))
      (ap (λ m. m * r / (t * u)) h
        ∙ ap (λ m. m / (t * u)) (omega arith)
        ∙ mul-div-mul_right (n * r) t p)

with_sign-zero : (a : ℤ) (k : ℕ) → k ≡ 0 → pos 0 ≡ with_sign a k
with_sign-zero (pos n) k h = ground arith
with_sign-zero (negsuc n) k h = ground arith

with_sign-add : (a : ℤ) (m n k : ℕ) → m + n ≡ k → with_sign a m +ℤ with_sign a n ≡ with_sign a k
unfolding ◌+ℤ◌
with_sign-add (pos _) m n k h = ground arith
with_sign-add (negsuc _) m n k h = ground arith

module _ (u n : ℕ) (a : ℤ) (p : 0 < u) (whole : magnitude a ≡ n * u) where
  sum-shares :
      (t : ℕ) (rs : List ℕ) → sum (map (share u t a) rs) ≡ with_sign a (whole_units n t rs * u)
  unfolding sum whole_units
  sum-shares t [] = with_sign-zero a _ (omega arith)
  sum-shares t (r ∷ rs) =
      rw (share_units u t n r a p whole, sum-shares t rs) (with_sign-add a _ _ _ (omega arith))

remainder_of : (a : ℤ) (m k : ℕ) → magnitude a ≡ m + k → a -ℤ with_sign a m ≡ with_sign a k
unfolding ◌-ℤ◌
remainder_of (pos n) m k h = ground arith
remainder_of (negsuc n) m k h = ground arith

length-map-share : (u t : ℕ) (a : ℤ) (rs : List ℕ) → length (map (share u t a) rs) ≡ length rs
length-map-share u t a [] = refl
length-map-share u t a (r ∷ rs) = ap suc (length-map-share u t a rs)

magnitude-with_sign : (a : ℤ) (n : ℕ) → magnitude (with_sign a n) ≡ n
magnitude-with_sign (pos _) n = refl
magnitude-with_sign (negsuc _) n = ground arith

positive-test : (n k : ℕ) → ltb_ℤ (pos 0) (with_sign (pos n) (suc k)) ≡ true
positive-test n k = ground arith

negative-test : (n k : ℕ) → ltb_ℤ (pos 0) (with_sign (negsuc n) (suc k)) ≡ false
negative-test n k = ground arith

neg-pos : (n m : ℕ) → suc n ≡ m → neg (pos m) ≡ negsuc n
unfolding neg
neg-pos n m h = ground arith

-- Handing out `k` units of the remainder's sign gives the remainder.
times-remainder :
    (d : ℤ) (u k : ℕ)
    → magnitude d ≡ k * u
    → times k (if ltb_ℤ (pos 0) (with_sign d k) then pos u else neg (pos u)) ≡ d
times-remainder (pos n) u zero h = unfold times in ground arith
times-remainder (pos n) u (suc k) h = rw (positive-test n k) (times-pos (suc k) u ∙ ap pos (sym h))
times-remainder (negsuc n) u zero h = absurd (omega arith)
times-remainder (negsuc n) u (suc k) h =
    rw (negative-test n k) (times-neg (suc k) u ∙ neg-pos n (suc k * u) h)

distribute :
    (d : ℤ) (u k : ℕ) (rs : List ℕ) (xs : List ℤ)
    → 0 < u
    → magnitude d ≡ k * u
    → length xs ≡ length rs
    → k ≤ eligible rs
    → let r = with_sign d (magnitude d / u) in
      sum (adjust (magnitude r) (if ltb_ℤ (pos 0) r then pos u else neg (pos u)) rs xs)
      ≡ sum xs +ℤ d
distribute d u k rs xs p h same few = rw (ap (λ m. m / u) h ∙ mul-div_left k p) (
    rw (magnitude-with_sign d k)
      (sum-adjust k _ rs xs same few ∙ ap (λ v. sum xs +ℤ v) (times-remainder d u k h)))

cancel_left : (t a b : ℕ) → 0 < t → t * a ≤ t * b → a ≤ b
cancel_left t a b p h = grind arith

split_units : (n w u : ℕ) → w ≤ n → n * u ≡ w * u + (n - w) * u
split_units n w u h = grind arith

cancel_sum : (s a : ℤ) → s +ℤ (a -ℤ s) ≡ a
cancel_sum s a = omega int_laws

-- The amounts that are handed out, one for each ratio, add up to the amount that was split.
sum-allocate_amounts :
    (u n : ℕ) (a : ℤ) (rs : List ℕ)
    → 0 < u
    → magnitude a ≡ n * u
    → 0 < total_ratio rs
    → sum (allocate_amounts u a rs) ≡ a
unfolding allocate_amounts
sum-allocate_amounts u n a rs p whole some_ratio =
    let t = total_ratio rs in
    let w = whole_units n t rs in
    let xs = map (share u t a) rs in
    let below : w ≤ n =
      cancel_left t w n some_ratio (omega (arith, whole_units-le n t rs some_ratio)) in
    let above : n ≤ w + eligible rs =
      cancel_left t n (w + eligible rs) some_ratio
        (omega (arith, whole_units-lt n t rs some_ratio)) in
    let d : a -ℤ sum xs ≡ with_sign a ((n - w) * u) =
      ap (λ s. a -ℤ s) (sum-shares u n a p whole t rs)
      ∙ remainder_of a (w * u) ((n - w) * u) (whole ∙ split_units n w u below) in
    distribute (a -ℤ sum xs) u (n - w) rs xs p (ap magnitude d ∙ magnitude-with_sign a _)
      (length-map-share u t a rs) (omega arith)
    ∙ cancel_sum (sum xs) a

length-adjust : (k : ℕ) (d : ℤ) (rs : List ℕ) (xs : List ℤ) → length (adjust k d rs xs) ≡ length xs
unfolding adjust
length-adjust k d [] xs = refl
length-adjust k d (r ∷ rs) [] = refl
length-adjust k d (r ∷ rs) (x ∷ xs) =
    ap suc (length-adjust (if r == 0 || k == 0 then k else k - 1) d rs xs)

length-allocate_amounts :
    (u : ℕ) (a : ℤ) (rs : List ℕ) → length (allocate_amounts u a rs) ≡ length rs
unfolding allocate_amounts
length-allocate_amounts u a rs =
    length-adjust _ _ rs (map (share u (total_ratio rs) a) rs)
    ∙ length-map-share u (total_ratio rs) a rs

-- Every part carries the currency.
abbrev pub AllIn : String → List Money → Type 0
AllIn c [] = Unit
AllIn c (m ∷ ms) = (m.currency ≡ c) × AllIn c ms

abbrev pub amounts : List Money → List ℤ
amounts = map (λ m. m.amount)

new_money-ok :
    (a : ℤ) (c : String) {m : Money} → new_money a c ≡ ok m → (m.amount ≡ a) × (m.currency ≡ c)
unfolding new_money
new_money-ok a c h =
    let (e, found, made) = >>=-eq-ok (currency_exponent c) _ h in
    subst (λ m. (m.amount ≡ a) × (m.currency ≡ c)) (ok-injective made) (refl, refl)

wrap-ok :
    (c : String) (xs : List ℤ) {parts : List Money}
    → wrap c xs ≡ ok parts
    → (amounts parts ≡ xs) × AllIn c parts
unfolding wrap
wrap-ok c [] h = subst (λ ps. (amounts ps ≡ []) × AllIn c ps) (ok-injective h) (refl, tt)
wrap-ok c (x ∷ xs) h =
    let (part, made, next) = >>=-eq-ok (new_money x c) _ h in
    let (rest, wrapped, done) = >>=-eq-ok (wrap c xs) _ next in
    let (same, all_in) = wrap-ok c xs wrapped in
    let (amount, currency) = new_money-ok x c made in
    subst (λ ps. (amounts ps ≡ x ∷ xs) × AllIn c ps) (ok-injective done)
      (ap₂ (λ a l. a ∷ l) amount same, (currency, all_in))

positive_total :
    (rs : List ℤ)
    → any (λ r. not (r === pos 0)) rs ≡ true
    → any (λ r. ltb_ℤ r (pos 0)) rs ≡ false
    → 0 < total_ratio (map pos_part rs)
unfolding any total_ratio
positive_total [] h k = cc
positive_total (r ∷ rs) h k = ground (arith, positive_total rs)

whole_of_mod : (m u : ℕ) → m % u ≡ 0 → m ≡ m / u * u
whole_of_mod m u h = omega (arith, div-add-mod' m u)

-- A successful `allocate` loses no money: the parts add up to the amount, there is one part for
-- each ratio, and every part has the currency of the amount.
pub allocate_conserves :
    (m : Money) (ratios : List ℤ) {parts : List Money}
    → allocate m ratios ≡ ok parts
    → (sum (amounts parts) ≡ m.amount) × (length parts ≡ length ratios) × AllIn m.currency parts
unfolding allocate
allocate_conserves m ratios {parts} h =
    let (nonempty, h₁) = >>-eq-ok _ _ _ h in
    let (signs, h₂) = >>-eq-ok _ _ _ h₁ in
    let (negative, zeros) = or-false (any (λ r. ltb_ℤ r (pos 0)) ratios) _ signs in
    let (rounded, quantized, h₃) = >>=-eq-ok (quantize m.amount m.currency) _ h₂ in
    let (exact, h₄) = >>-eq-ok _ _ _ h₃ in
    let (e, found, h₅) = >>=-eq-ok (currency_exponent m.currency) _ h₄ in
    let (same, all_in) = wrap-ok m.currency _ h₅ in
    let u = minor_unit e in
    let unchanged : m.amount ≡ rounded =
      ===_sound m.amount rounded (not-false (m.amount === rounded) exact) in
    let whole : magnitude m.amount % u ≡ 0 =
      minor_unit-whole m.amount m.currency e (quantized ∙ ap ok (sym unchanged)) found in
    (
      ap sum same
          ∙ sum-allocate_amounts u (magnitude m.amount / u) m.amount (map pos_part ratios)
              (minor_unit-pos e) (whole_of_mod (magnitude m.amount) u whole)
              (positive_total ratios (not-false _ zeros) negative),
      sym (length-map parts (λ p. p.amount))
          ∙ ap length same
          ∙ length-allocate_amounts u m.amount (map pos_part ratios)
          ∙ length-map ratios pos_part,
      all_in,
    )
