-- ===== src/Approvals/Conditions/Truth.antt =====
-- What `evaluate` of apps/api/src/flo/modules/approvals/conditions.py answers, against the truth of a
-- condition.
use mathlib.Core.Path.{subst}
use xlr8_flo.Common.{
  ◌≡◌, refl, sym, ap, String, Bool, true, false, not, ◌&&◌, ◌||◌, List, [], ◌∷◌, ◌++◌,
}
use xlr8_flo.Common.Problems.{Result, ok, err, >>=-eq-ok, ok-injective}
use xlr8_flo.Approvals.Conditions.{
  LeafCondition, Condition, leaf, all_of, any_of, not_of, Conditions, end, more, Attributes, get,
  LeafTrace, compare, visit, visit_leaf, visit_all, visit_any, evaluate,
}

-- Python's reading of a condition, with every leaf evaluated.
abbrev mutual
  pub truth : (LeafCondition → Bool) → Condition → Bool
  truth holds (leaf c) = holds c
  truth holds (all_of cs) = truth_all holds cs
  truth holds (any_of cs) = truth_any holds cs
  truth holds (not_of c) = not (truth holds c)

  pub truth_all : (LeafCondition → Bool) → Conditions → Bool
  truth_all holds end = true
  truth_all holds (more c cs) = truth holds c && truth_all holds cs

  pub truth_any : (LeafCondition → Bool) → Conditions → Bool
  truth_any holds end = false
  truth_any holds (more c cs) = truth holds c || truth_any holds cs

abbrev pub answer : Result Bool → Bool
answer (ok b) = b
answer (err e) = false

module _ (casefold : String → String) (attributes : Attributes) where
  abbrev pub holds : LeafCondition → Bool
  holds c = answer (compare casefold c (get c.field attributes))

  -- A recorded comparison is one of the attributes, with its result.
  abbrev pub Recorded : LeafTrace → Type 0
  Recorded t =
      (t.actual ≡ get t.field attributes)
      × (compare casefold (record { field = t.field; op = t.op; value = t.expected }) t.actual
          ≡ ok t.result)

  abbrev pub AllRecorded : List LeafTrace → Type 0
  AllRecorded [] = Unit
  AllRecorded (t ∷ ts) = Recorded t × AllRecorded ts

  AllRecorded-snoc :
      (ts : List LeafTrace) (t : LeafTrace)
      → AllRecorded ts
      → Recorded t
      → AllRecorded (ts ++ t ∷ [])
  AllRecorded-snoc [] t h r = (r, tt)
  AllRecorded-snoc (u ∷ us) t h r = (h.0, AllRecorded-snoc us t h.1 r)

  abbrev Right : Bool → (Bool × List LeafTrace) → Type 0
  Right b p = (p.0 ≡ b) × AllRecorded p.1

  visit_leaf-Right :
      (c : LeafCondition) (ts : List LeafTrace) {p : Bool × List LeafTrace}
      → AllRecorded ts
      → visit_leaf casefold attributes c ts ≡ ok p
      → Right (holds c) p
  unfolding visit_leaf
  visit_leaf-Right c ts r h =
      let (b, compared, h₁) = >>=-eq-ok (compare casefold c (get c.field attributes)) _ h in
      subst (Right (holds c)) (ok-injective h₁)
        (sym (ap answer compared), AllRecorded-snoc ts _ r (refl, compared))

  next_all :
      (b : Bool) (x : Result (Bool × List LeafTrace)) (ts : List LeafTrace) (t u : Bool)
      {p : Bool × List LeafTrace}
      → (elim b as (λ c. Result (Bool × List LeafTrace)) [ true ↦ x | false ↦ ok (false, ts) ])
        ≡ ok p
      → b ≡ t
      → AllRecorded ts
      → (x ≡ ok p → Right u p)
      → Right (t && u) p
  next_all true x ts t u {p} h same r later = subst (λ c. Right (c && u) p) same (later h)
  next_all false x ts t u {p} h same r later =
      subst (λ c. Right (c && u) p) same (subst (Right false) (ok-injective h) (refl, r))

  next_any :
      (b : Bool) (x : Result (Bool × List LeafTrace)) (ts : List LeafTrace) (t u : Bool)
      {p : Bool × List LeafTrace}
      → (elim b as (λ c. Result (Bool × List LeafTrace)) [ true ↦ ok (true, ts) | false ↦ x ])
        ≡ ok p
      → b ≡ t
      → AllRecorded ts
      → (x ≡ ok p → Right u p)
      → Right (t || u) p
  next_any false x ts t u {p} h same r later = subst (λ c. Right (c || u) p) same (later h)
  next_any true x ts t u {p} h same r later =
      subst (λ c. Right (c || u) p) same (subst (Right true) (ok-injective h) (refl, r))

  mutual
    unfolding visit

    visit-Right :
        (c : Condition) (ts : List LeafTrace) {p : Bool × List LeafTrace}
        → AllRecorded ts
        → visit casefold attributes c ts ≡ ok p
        → Right (truth holds c) p
    visit-Right (leaf c) ts r h = visit_leaf-Right c ts r h
    visit-Right (all_of cs) ts r h = visit_all-Right cs ts r h
    visit-Right (any_of cs) ts r h = visit_any-Right cs ts r h
    visit-Right (not_of c) ts r h =
        let (q, first, h₁) = >>=-eq-ok (visit casefold attributes c ts) _ h in
        let (same, kept) = visit-Right c ts r first in
        subst (Right (not (truth holds c))) (ok-injective h₁) (ap not same, kept)

    visit_all-Right :
        (cs : Conditions) (ts : List LeafTrace) {p : Bool × List LeafTrace}
        → AllRecorded ts
        → visit_all casefold attributes cs ts ≡ ok p
        → Right (truth_all holds cs) p
    visit_all-Right end ts r h = subst (Right true) (ok-injective h) (refl, r)
    visit_all-Right (more c cs) ts {p} r h =
        let (q, first, h₁) = >>=-eq-ok (visit casefold attributes c ts) _ h in
        let (same, kept) = visit-Right c ts r first in
        next_all q.0 _ q.1 _ _ h₁ same kept (λ k. visit_all-Right cs q.1 kept k)

    visit_any-Right :
        (cs : Conditions) (ts : List LeafTrace) {p : Bool × List LeafTrace}
        → AllRecorded ts
        → visit_any casefold attributes cs ts ≡ ok p
        → Right (truth_any holds cs) p
    visit_any-Right end ts r h = subst (Right false) (ok-injective h) (refl, r)
    visit_any-Right (more c cs) ts {p} r h =
        let (q, first, h₁) = >>=-eq-ok (visit casefold attributes c ts) _ h in
        let (same, kept) = visit-Right c ts r first in
        next_any q.0 _ q.1 _ _ h₁ same kept (λ k. visit_any-Right cs q.1 kept k)

  -- What an evaluation returns is the truth of the condition, although it stops at the child that
  -- decides; and each comparison in its trace is one of the attributes, with the result it has.
  pub evaluate-truth :
      (c : Condition) {b : Bool} {trace : List LeafTrace}
      → evaluate casefold c attributes ≡ ok (b, trace)
      → (b ≡ truth holds c) × AllRecorded trace
  unfolding evaluate
  evaluate-truth c h = visit-Right c [] tt h
