-- ===== src/Common/Membership.antt =====
-- The elements of a list.
use mathlib.Core.Path.{◌≡◌, refl, sym, ap, ◌∙◌, subst}
use mathlib.Core.Logic.{◌⊎◌, inl, inr}
use mathlib.Core.Bool.{Bool, true, false}
use mathlib.Core.Option.{some}
use mathlib.Core.List.{List, [], ◌∷◌, ◌++◌, map}
use xlr8_flo.Common.Tests.{Bool-cases, some-injective, or-false, or_right, and_elim, and_intro}
use xlr8_flo.Common.Lists.{find, any, all}

-- An element of a list.
abbrev pub In : {A : Type 0} → A → List A → Type 0
In x [] = ⊥
In x (y ∷ ys) = (x ≡ y) ⊎ In x ys

pub In-map :
    {A B : Type 0} (f : A → B) (y : B) (xs : List A)
    → In y (map f xs)
    → (x : A) × In x xs × (y ≡ f x)
In-map f y [] h = elim h [ ]
In-map f y (x ∷ xs) (inl h) = (x, inl refl, h)
In-map f y (x ∷ xs) (inr h) = let (z, found, same) = In-map f y xs h in (z, inr found, same)

pub In-image : {A B : Type 0} (f : A → B) (x : A) (xs : List A) → In x xs → In (f x) (map f xs)
In-image f x [] h = elim h [ ]
In-image f x (y ∷ ys) (inl h) = inl (ap f h)
In-image f x (y ∷ ys) (inr h) = inr (In-image f x ys h)

pub In-snoc : {A : Type 0} (x y : A) (xs : List A) → In x (xs ++ y ∷ []) → In x xs ⊎ (x ≡ y)
In-snoc x y [] (inl h) = inr h
In-snoc x y [] (inr h) = elim h [ ]
In-snoc x y (z ∷ zs) (inl h) = inl (inl h)
In-snoc x y (z ∷ zs) (inr h) = elim (In-snoc x y zs h) [ inl k ↦ inl (inr k) | inr k ↦ inr k ]

pub In-left : {A : Type 0} (x : A) (xs ys : List A) → In x xs → In x (xs ++ ys)
In-left x [] ys h = elim h [ ]
In-left x (z ∷ zs) ys (inl h) = inl h
In-left x (z ∷ zs) ys (inr h) = inr (In-left x zs ys h)

pub In-last : {A : Type 0} (x : A) (xs : List A) → In x (xs ++ x ∷ [])
In-last x [] = inl refl
In-last x (z ∷ zs) = inr (In-last x zs)

pub unique_snoc :
    {A : Type 0} (R : A → A → Type 0)
    → ((t u : A) → R t u → R u t)
    → (t : A) (ts : List A) → ((u v : A) → In u ts → In v ts → R u v → u ≡ v)
    → ((u : A) → In u ts → R u t → ⊥)
    → (u v : A) → In u (ts ++ t ∷ [])
    → In v (ts ++ t ∷ [])
    → R u v
    → u ≡ v
unique_snoc R swap t ts unique apart u v hu hv r = elim (In-snoc u t ts hu) [
  | inl u_in ↦ elim (In-snoc v t ts hv) [
    | inl v_in ↦ unique u v u_in v_in r
    | inr v_is ↦ absurd (apart u u_in (subst (R u) v_is r))
  ]
  | inr u_is ↦ elim (In-snoc v t ts hv) [
    | inl v_in ↦ absurd (apart v v_in (subst (R v) u_is (swap u v r)))
    | inr v_is ↦ u_is ∙ sym v_is
  ]
]

pub find-In : {A : Type 0} (p : A → Bool) (xs : List A) {a : A} → find p xs ≡ some a → In a xs
unfolding find
find-In p [] h = absurd (cc)
find-In p (x ∷ xs) {a} h = elim (Bool-cases (p x)) [
  | inl here ↦ inl (sym (some-injective (rw (here) at h)))
  | inr there ↦ inr (find-In p xs (rw (there) at h))
]

pub any-In :
    {A : Type 0} (p : A → Bool) (xs : List A) → any p xs ≡ false → (x : A) → In x xs → p x ≡ false
unfolding any
any-In p [] h x found = elim found [ ]
any-In p (y ∷ ys) h x (inl same) = ap p same ∙ (or-false (p y) _ h).0
any-In p (y ∷ ys) h x (inr later) = any-In p ys ((or-false (p y) _ h).1) x later

pub any_sound :
    {A : Type 0} (p : A → Bool) (xs : List A) → any p xs ≡ true → (x : A) × In x xs × (p x ≡ true)
unfolding any
any_sound p [] h = absurd (cc)
any_sound p (x ∷ xs) h = elim (Bool-cases (p x)) [
  | inl hit ↦ (x, inl refl, hit)
  | inr miss ↦ let (y, found, k) = any_sound p xs (rw (miss) at h) in (y, inr found, k)
]

pub any_complete :
    {A : Type 0} (p : A → Bool) (xs : List A) (x : A) → In x xs → p x ≡ true → any p xs ≡ true
unfolding any
any_complete p [] x h k = elim h [ ]
any_complete p (y ∷ ys) x (inl same) k = rw (ap p (sym same) ∙ k)
any_complete p (y ∷ ys) x (inr later) k = rw (any_complete p ys x later k, or_right (p y))

pub all_sound :
    {A : Type 0} (p : A → Bool) (xs : List A) → all p xs ≡ true → (x : A) → In x xs → p x ≡ true
unfolding all
all_sound p [] h x found = elim found [ ]
all_sound p (y ∷ ys) h x (inl same) = ap p same ∙ (and_elim (p y) _ h).0
all_sound p (y ∷ ys) h x (inr later) = all_sound p ys ((and_elim (p y) _ h).1) x later

pub all_complete :
    {A : Type 0} (p : A → Bool) (xs : List A) → ((x : A) → In x xs → p x ≡ true) → all p xs ≡ true
unfolding all
all_complete p [] h = refl
all_complete p (y ∷ ys) h =
    and_intro (p y) _ (h y (inl refl)) (all_complete p ys (λ x found. h x (inr found)))
