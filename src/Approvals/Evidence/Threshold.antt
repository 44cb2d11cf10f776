-- ===== src/Approvals/Evidence/Threshold.antt =====
-- When a step of an approval is complete: `step_complete` of
-- apps/api/src/flo/modules/approvals/engine.py beside what its modes mean.
use mathlib.Core.Path.{subst}
use xlr8_flo.Common.{
  ℕ, ◌≤◌, ◌≡◌, ◌≢◌, refl, sym, ap, ◌∙◌, inl, inr, Bool, true, false, not, ◌&&◌, Option, none, some,
  List, [], ◌∷◌, map, leb→le, arith, Bool-cases, not-true, and_elim, and_intro, true-ne-false,
  length,
}
use xlr8_flo.Common.Membership.{In, In-map, In-image, all_sound, all_complete}
use xlr8_flo.Approvals.Graph.{Mode, any_one, everyone, quorum}
use xlr8_flo.Approvals.Tables.{
  Task, Decision, DecisionOutcome, approve, reject, give_back, comment, withdraw,
}
use xlr8_flo.Approvals.Members.{has}
use xlr8_flo.Approvals.Evidence.{
  user_of, on_task, rows, is_terminal, is_approval, first_of, distinct, is_empty, enough, ended_by,
  StepResult, rejected_step, returned_step, complete, step_result, step_complete,
}
use xlr8_flo.Approvals.Evidence.Distinct.{
  has-In, In-has, unique, once_each, once_each-length, once_each-In, once_each-unique,
  distinct-most,
}

rows-In :
    (p : Decision → Bool) (ds : List Decision) (d : Decision)
    → In d (rows p ds)
    → In d ds × (p d ≡ true)
unfolding rows
rows-In p [] d h = elim h [ ]
rows-In p (e ∷ ds) d h = elim (Bool-cases (p e)) [
  | inl hit ↦
      let k : In d (e ∷ rows p ds) = rw (hit) at h in
      elim k [
        | inl first ↦ (inl first, ap p first ∙ hit)
        | inr later ↦ let (found, passed) = rows-In p ds d later in (inr found, passed)
      ]
  | inr miss ↦ let (found, passed) = rows-In p ds d (rw (miss) at h) in (inr found, passed)
]

In-rows :
    (p : Decision → Bool) (ds : List Decision) (d : Decision)
    → In d ds
    → p d ≡ true
    → In d (rows p ds)
unfolding rows
In-rows p [] d h k = elim h [ ]
In-rows p (e ∷ ds) d h k = elim (Bool-cases (p e)) [
  | inl hit ↦
      let found : In d (e ∷ rows p ds) = elim h [
        | inl first ↦ inl first
        | inr later ↦ inr (In-rows p ds d later k)
      ] in
      rw (hit) found
  | inr miss ↦ elim h [
    | inl first ↦ absurd (true-ne-false (sym (ap p (sym first) ∙ k) ∙ miss))
    | inr later ↦ rw (miss) (In-rows p ds d later k)
  ]
]

ended_by-incomplete : (d : Decision) → ended_by d ≢ complete
ended_by-incomplete d h = by_outcome d.outcome h
  where
    by_outcome :
        (o : DecisionOutcome)
        → ◌≢◌ {A = StepResult} (elim o [ reject ↦ rejected_step | _ ↦ returned_step ]) complete
    by_outcome reject h = cc
    by_outcome approve h = cc
    by_outcome give_back h = cc
    by_outcome comment h = cc
    by_outcome withdraw h = cc

step_result_lem :
    (o : Option Decision) (b : Bool) → step_result o b ≡ complete → (o ≡ none) × (b ≡ true)
step_result_lem (some d) b h = absurd (ended_by-incomplete d h)
step_result_lem none true h = (refl, refl)
step_result_lem none false h = absurd (cc)

first_of-none : (xs : List Decision) → first_of xs ≡ none → xs ≡ []
unfolding first_of
first_of-none [] h = refl
first_of-none (d ∷ xs) h = absurd (cc)

no_terminal :
    (es : List Decision)
    → ((d : Decision) → In d es → is_terminal d ≡ false)
    → rows is_terminal es ≡ []
unfolding rows
no_terminal [] h = refl
no_terminal (d ∷ es) h = rw (h d (inl refl)) (no_terminal es (λ e found. h e (inr found)))

given_by : (xs : List ℕ) (x : ℕ) → In x xs → not (is_empty xs) ≡ true
given_by [] x h = elim h [ ]
given_by (y ∷ ys) x h = refl

some-In : (xs : List ℕ) → not (is_empty xs) ≡ true → (x : ℕ) × In x xs
some-In [] h = absurd (true-ne-false (sym h))
some-In (y ∷ ys) h = (y, inl refl)

module _ (t : Task) (ds : List Decision) where
  -- A user's approval of the task, by the user or by a delegate.
  abbrev pub Vote : ℕ → Type 0
  Vote u =
      (d : Decision) × In d ds × (on_task t.id d ≡ true) × (is_approval d ≡ true) × (user_of d ≡ u)

  -- No member has rejected or returned the task.
  abbrev pub Unopposed : List ℕ → Type 0
  Unopposed members =
      (d : Decision)
      → In d ds
      → on_task t.id d ≡ true
      → has (user_of d) members ≡ true
      → is_terminal d ≡ false

  -- What a mode asks for.
  abbrev pub Enough : Mode → List ℕ → Type 0
  Enough any_one members = (u : ℕ) × In u members × Vote u
  Enough everyone members = (members ≢ []) × ((m : ℕ) → In m members → Vote m)
  Enough (quorum q) members =
      (us : List ℕ) × (unique us ≡ true)
      × (q ≤ length us)
      × ((u : ℕ) → In u us → In u members × Vote u)

module _ (t : Task) (ds : List Decision) (members : List ℕ) where
  abbrev counted : Decision → Bool
  counted d = has (user_of d) members && on_task t.id d

  abbrev evidence : List Decision
  evidence = rows counted ds

  abbrev who : List ℕ
  who = map user_of (rows is_approval evidence)

  who-Vote : (u : ℕ) → In u who → In u members × Vote t ds u
  who-Vote u h =
      let (d, d_in, same) = In-map user_of u (rows is_approval evidence) h in
      let (found, approves) = rows-In is_approval evidence d d_in in
      let (listed, passed) = rows-In counted ds d found in
      let (is_member, on) = and_elim (has (user_of d) members) (on_task t.id d) passed in
      (
        subst (λ v. In v members) (sym same) (has-In (user_of d) members is_member),
        (d, listed, on, approves, sym same),
      )

  Vote-who : (u : ℕ) → In u members → Vote t ds u → In u who
  Vote-who u u_in (d, d_in, on, approves, same) =
      let is_member = In-has (user_of d) members (subst (λ v. In v members) (sym same) u_in) in
      let found = In-rows counted ds d d_in (and_intro _ _ is_member on) in
      subst (λ v. In v who) same
        (In-image user_of d (rows is_approval evidence)
          (In-rows is_approval evidence d found approves))

  enough-Enough : (mode : Mode) → enough mode members who ≡ true → Enough t ds mode members
  enough-Enough any_one h =
      let (u, found) = some-In who h in let w = who-Vote u found in (u, w.0, w.1)
  enough-Enough everyone h =
      let (given, covered) = and_elim (not (is_empty members)) _ h in
      (
        λ none_there. true-ne-false (sym given ∙ ap (λ ms. not (is_empty ms)) none_there),
        λ m found.
            (who-Vote m (has-In m who (all_sound (λ m. has m who) members covered m found))).1,
      )
  enough-Enough (quorum q) h =
      let least = leb→le q (distinct who) h in
      let count = once_each-length who in
      (
        once_each who,
        once_each-unique who,
        omega (arith, least, count),
        λ u found. who-Vote u (once_each-In who u found),
      )

  Enough-enough : (mode : Mode) → Enough t ds mode members → enough mode members who ≡ true
  Enough-enough any_one (u, found, vote) = given_by who u (Vote-who u found vote)
  Enough-enough everyone (given, votes) = and_intro _ _ (non_empty members given) (
      all_complete (λ m. has m who) members
        (λ m found. In-has m who (Vote-who m found (votes m found))))
    where
      non_empty : (ms : List ℕ) → ms ≢ [] → not (is_empty ms) ≡ true
      non_empty [] h = absurd (h refl)
      non_empty (m ∷ ms) h = refl
  Enough-enough (quorum q) (us, once, least, votes) =
      let most =
        distinct-most who us once
          (λ u found. let (listed, vote) = votes u found in Vote-who u listed vote) in
      ground (arith, least, most)

  -- A step that is complete has the votes that its mode asks for, of members of the step, and no
  -- member has rejected or returned it.
  pub step_complete-Enough :
      step_complete t ds members ≡ complete → Unopposed t ds members × Enough t ds t.mode members
  unfolding step_complete
  step_complete-Enough h =
      let (none_ends, reached) =
        step_result_lem (first_of (rows is_terminal evidence)) (enough t.mode members who) h in
      let empty = first_of-none (rows is_terminal evidence) none_ends in
      (
        λ d d_in on listed. not-true _ (λ ends.
            let found =
              In-rows is_terminal evidence d (In-rows counted ds d d_in (and_intro _ _ listed on))
                ends in
            elim (subst (λ xs. In d xs) empty found) [ ]),
        enough-Enough t.mode reached,
      )

  -- A step is complete when it has the votes that its mode asks for, of members of the step, and no
  -- member has rejected or returned it.
  pub Enough-step_complete :
      Unopposed t ds members → Enough t ds t.mode members → step_complete t ds members ≡ complete
  unfolding step_complete first_of
  Enough-step_complete unopposed votes =
      let empty = no_terminal evidence (λ d found.
        let (d_in, passed) = rows-In counted ds d found in
        let (listed, on) = and_elim (has (user_of d) members) (on_task t.id d) passed in
        unopposed d d_in on listed) in
      rw (empty, Enough-enough t.mode votes)
