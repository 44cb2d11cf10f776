-- ===== src/Approvals/Tests/Votes.antt =====
-- The votes of two managers, counted.
use xlr8_flo.Common.{ℕ, ◌≡◌, true, refl, sym, ap, inl, inr, [], ◌∷◌, arith, any}
use xlr8_flo.Common.Membership.{In}
use xlr8_flo.Approvals.Graph.{quorum}
use xlr8_flo.Approvals.Evidence.{is_terminal, rows, first_of, distinct, step_complete, complete}
use xlr8_flo.Approvals.Evidence.Distinct.{unique}
use xlr8_flo.Approvals.Evidence.Threshold.{
  Vote, Unopposed, Enough, step_complete-Enough, Enough-step_complete,
}
use xlr8_flo.Approvals.Tests.Decisions.{approval_by, asked, settled}

completes : step_complete asked settled.decisions (2 ∷ 3 ∷ []) ≡ complete
unfolding step_complete rows first_of distinct any
completes = refl

step_complete-Enough_example :
    Unopposed asked settled.decisions (2 ∷ 3 ∷ [])
    × Enough asked settled.decisions (quorum 2) (2 ∷ 3 ∷ [])
step_complete-Enough_example = step_complete-Enough asked settled.decisions (2 ∷ 3 ∷ []) completes

no_veto : Unopposed asked settled.decisions (2 ∷ 3 ∷ [])
no_veto d (inl h) on listed = ap is_terminal h
no_veto d (inr (inl h)) on listed = ap is_terminal h
no_veto d (inr (inr h)) on listed = elim h [ ]

different : unique (2 ∷ 3 ∷ []) ≡ true
unfolding unique any
different = refl

both-Vote : (u : ℕ) → In u (2 ∷ 3 ∷ []) → In u (2 ∷ 3 ∷ []) × Vote asked settled.decisions u
both-Vote u (inl h) = (inl h, (approval_by 30 2 200, inl refl, refl, refl, sym h))
both-Vote u (inr (inl h)) = (inr (inl h), (approval_by 31 3 300, inr (inl refl), refl, refl, sym h))
both-Vote u (inr (inr h)) = elim h [ ]

Enough-step_complete_example : step_complete asked settled.decisions (2 ∷ 3 ∷ []) ≡ complete
Enough-step_complete_example =
    Enough-step_complete asked settled.decisions (2 ∷ 3 ∷ []) no_veto
      (2 ∷ 3 ∷ [], different, omega arith, both-Vote)
