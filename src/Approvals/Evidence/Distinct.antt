-- ===== src/Approvals/Evidence/Distinct.antt =====
-- The count of the different users who approve a step: `len(approved)` in `step_complete` of
-- apps/api/src/flo/modules/approvals/engine.py.
use mathlib.Core.Path.{subst}
use xlr8_flo.Common.{
  ℕ, suc, ◌≤◌, ◌≡◌, ◌≢◌, refl, sym, ap, ◌∙◌, inl, inr, Bool, true, false, not, ◌&&◌, List, [], ◌∷◌,
  ◌==◌, ==_iff, arith, if◌then◌else◌, Bool-cases, not-true, and_elim, and_intro, true-ne-false,
  not-not, or-false, any, length,
}
use xlr8_flo.Common.Membership.{In, any_sound, any_complete}
use xlr8_flo.Approvals.Members.{has, keep}
use xlr8_flo.Approvals.Evidence.{distinct}

pub has-In : (x : ℕ) (xs : List ℕ) → has x xs ≡ true → In x xs
has-In x xs h =
    let (y, found, same) = any_sound (λ y. y == x) xs h in
    subst (λ z. In z xs) ((==_iff y x).0 same) found

pub In-has : (x : ℕ) (xs : List ℕ) → In x xs → has x xs ≡ true
In-has x xs h = any_complete (λ y. y == x) xs x h ((==_iff x x).1 refl)

-- Each element once.
unfoldable pub unique : List ℕ → Bool
unique [] = true
unique (x ∷ xs) = not (has x xs) && unique xs

-- The last occurrence of each element.
unfoldable pub once_each : List ℕ → List ℕ
once_each [] = []
once_each (x ∷ xs) = let rest = once_each xs in if has x xs then rest else x ∷ rest

pub once_each-length : (xs : List ℕ) → length (once_each xs) ≡ distinct xs
unfolding once_each distinct
once_each-length [] = refl
once_each-length (x ∷ xs) = elim (Bool-cases (has x xs)) [
  | inl again ↦ rw (again) (once_each-length xs)
  | inr new ↦ let rest = once_each-length xs in rw (new) (omega (arith, rest))
]

pub once_each-In : (xs : List ℕ) (y : ℕ) → In y (once_each xs) → In y xs
unfolding once_each
once_each-In [] y h = h
once_each-In (x ∷ xs) y h = elim (Bool-cases (has x xs)) [
  | inl again ↦ inr (once_each-In xs y (rw (again) at h))
  | inr new ↦
      let k : In y (x ∷ once_each xs) = rw (new) at h in
      elim k [ inl same ↦ inl same | inr later ↦ inr (once_each-In xs y later) ]
]

has-once_each : (xs : List ℕ) (y : ℕ) → has y xs ≡ false → has y (once_each xs) ≡ false
has-once_each xs y h = not-true _ (λ found.
    true-ne-false (sym (In-has y xs (once_each-In xs y (has-In y (once_each xs) found))) ∙ h))

pub once_each-unique : (xs : List ℕ) → unique (once_each xs) ≡ true
unfolding once_each unique
once_each-unique [] = refl
once_each-unique (x ∷ xs) = elim (Bool-cases (has x xs)) [
  | inl again ↦ rw (again) (once_each-unique xs)
  | inr new ↦
      let absent = has-once_each xs x new in
      rw (new) (and_intro _ _ (ap not absent) (once_each-unique xs))
]

-- The elements other than one.
module _ (x : ℕ) where
  abbrev others : List ℕ → List ℕ
  others us = keep (λ u. not (u == x)) us

  others-In : (us : List ℕ) (u : ℕ) → In u (others us) → In u us × (u ≢ x)
  unfolding keep
  others-In [] u h = elim h [ ]
  others-In (v ∷ us) u h = elim (Bool-cases (v == x)) [
    | inl same ↦ let (found, other) = others-In us u (rw (same) at h) in (inr found, other)
    | inr other ↦
        let k : In u (v ∷ others us) = rw (other) at h in
        elim k [
          | inl first ↦
              (inl first, λ e. true-ne-false (sym ((==_iff v x).1 (sym first ∙ e)) ∙ other))
          | inr later ↦ let (found, apart) = others-In us u later in (inr found, apart)
        ]
  ]

  others-absent : (us : List ℕ) (u : ℕ) → has u us ≡ false → has u (others us) ≡ false
  others-absent us u h = not-true _ (λ found.
      true-ne-false (sym (In-has u us ((others-In us u (has-In u (others us) found)).0)) ∙ h))

  others-unique : (us : List ℕ) → unique us ≡ true → unique (others us) ≡ true
  unfolding keep unique
  others-unique [] h = refl
  others-unique (u ∷ us) h =
      let (absent, rest) = and_elim (not (has u us)) _ h in
      elim (Bool-cases (u == x)) [
        | inl same ↦ rw (same) (others-unique us rest)
        | inr other ↦
            let gone = others-absent us u (not-not _ absent) in
            rw (other) (and_intro _ _ (ap not gone) (others-unique us rest))
      ]

  others-same : (us : List ℕ) → has x us ≡ false → length us ≤ length (others us)
  unfolding keep any
  others-same [] h = omega arith
  others-same (u ∷ us) h =
      let (other, rest) = or-false (u == x) _ h in
      let shorter = others-same us rest in rw (other) (omega (arith, shorter))

  -- A list without repetition has an element at most once.
  others-length : (us : List ℕ) → unique us ≡ true → length us ≤ suc (length (others us))
  unfolding keep unique
  others-length [] h = omega arith
  others-length (u ∷ us) h =
      let (absent, rest) = and_elim (not (has u us)) _ h in
      elim (Bool-cases (u == x)) [
        | inl same ↦
            let gone = subst (λ y. has y us ≡ false) ((==_iff u x).0 same) (not-not _ absent) in
            let shorter = others-same us gone in rw (same) (omega (arith, shorter))
        | inr other ↦ let shorter = others-length us rest in rw (other) (omega (arith, shorter))
      ]

-- Different elements of a list are no more than its different elements.
pub distinct-most :
    (xs us : List ℕ) → unique us ≡ true → ((u : ℕ) → In u us → In u xs) → length us ≤ distinct xs
unfolding distinct
distinct-most [] [] h inside = omega arith
distinct-most [] (u ∷ us) h inside = elim (inside u (inl refl)) [ ]
distinct-most (x ∷ xs) us h inside = elim (Bool-cases (has x xs)) [
  | inl again ↦ rw (again) (
      distinct-most xs us h (λ u found. elim (inside u found) [
        | inl first ↦ subst (λ y. In y xs) (sym first) (has-In x xs again)
        | inr later ↦ later
      ]))
  | inr new ↦
      let shorter = others-length x us h in
      let rest = distinct-most xs (others x us) (others-unique x us h) (λ u found.
        let (kept, apart) = others-In x us u found in
        elim (inside u kept) [ inl first ↦ absurd (apart first) | inr later ↦ later ]) in
      rw (new) (omega (arith, shorter, rest))
]
