-- ===== src/Kernel/Jobs/Earliest.antt =====
-- The order in which the worker claims jobs: WorkerJobQueue.claim of
-- apps/api/src/flo/kernel/jobs/queue.py.
use mathlib.Core.Path.{subst}
use xlr8_flo.Common.{
  some-injective, refl, leb, leb→le, and_elim, and_intro, ◌≤◌, ◌<◌, ℕ, ◌≡◌, sym, ap, ◌∙◌, ◌⊎◌, inl,
  inr, Bool, true, false, ◌&&◌, ◌||◌, some, List, [], ◌∷◌, ◌==◌, ltb, arith, Bool-cases,
  Option-cases,
}
use xlr8_flo.Common.Membership.{In}
use xlr8_flo.Kernel.Jobs.Claim.{best-cases, next_due-cases, next_due-due}
use xlr8_flo.Kernel.Jobs.{
  Job, JobState, queued, running, dead, is_queued, due, sooner, best, next_due, started, claimed,
  claim,
}

abbrev before : ℕ → ℕ → ℕ → ℕ → Bool
before a m b n = ltb a b || a == b && ltb m n

before_irreflexive : (a m : ℕ) → before a m a m ≡ false
before_irreflexive a m = ground arith

before_asymmetric : (a m b n : ℕ) → before a m b n ≡ true → before b n a m ≡ false
before_asymmetric a m b n h = ground arith

before_connected :
    (a m b n c k : ℕ) → before a m b n ≡ false → before b n c k ≡ false → before a m c k ≡ false
before_connected a m b n c k h h' = ground arith

-- The better of two is not later than either.
best_lem : (r j k : Job) → (r ≡ j) ⊎ (sooner r k ≡ false) → sooner r (best j (some k)) ≡ false
best_lem r j k (inl same) = elim (Bool-cases (sooner k j)) [
  | inl first ↦
      rw (first)
        (ap (λ x. sooner x k) same ∙ before_asymmetric k.run_after k.id j.run_after j.id first)
  | inr last ↦ rw (last) (ap (λ x. sooner x j) same ∙ before_irreflexive j.run_after j.id)
]
best_lem r j k (inr h) = elim (Bool-cases (sooner k j)) [
  | inl first ↦ rw (first) h
  | inr last ↦
      rw (last) (before_connected r.run_after r.id k.run_after k.id j.run_after j.id h last)
]

best-In : (j k : Job) (js : List Job) → In k js → In (best j (some k)) (j ∷ js)
best-In j k js h = elim (best-cases j (some k)) [
  | inl first ↦ inl first
  | inr other ↦ inr (subst (λ x. In x js) (some-injective other) h)
]

next_due-In : (now : ℕ) (js : List Job) {j : Job} → next_due now js ≡ some j → In j js
unfolding next_due
next_due-In now [] h = absurd (cc)
next_due-In now (x ∷ xs) {j} h = elim (next_due-cases now x xs h) [
  | inl (same, _) ↦ inl same
  | inr later ↦ inr (next_due-In now xs later)
]

next_due-earliest :
    (now : ℕ) (r : Job) (js : List Job)
    → In r js
    → due now r ≡ true
    → (j : Job) × (next_due now js ≡ some j) × In j js × (sooner r j ≡ false)
unfolding next_due
next_due-earliest now r [] h ready = elim h [ ]
next_due-earliest now r (x ∷ xs) (inr later) ready =
    let (k, found, here, order) = next_due-earliest now r xs later ready in
    elim (Bool-cases (due now x)) [
      | inl too ↦
          (best x (some k), rw (too, found), best-In x k xs here, best_lem r x k (inr order))
      | inr not_yet ↦ (k, rw (not_yet) found, inr here, order)
    ]
next_due-earliest now r (x ∷ xs) (inl same) ready =
    let too : due now x ≡ true = ap (due now) (sym same) ∙ ready in
    elim (Option-cases (next_due now xs)) [
      | inl alone ↦ (
        x,
        rw (too, alone),
        inl refl,
        ap (λ y. sooner y x) same ∙ before_irreflexive x.run_after x.id,
      )
      | inr (k, found) ↦ (
        best x (some k),
        rw (too, found),
        best-In x k xs (next_due-In now xs found),
        best_lem r x k (inl same),
      )
    ]

-- A job that waits, at a time from which it may run.
abbrev pub Ready : ℕ → Job → Type 0
Ready now j = (j.state ≡ queued) × (j.run_after ≤ now)

due-Ready : (now : ℕ) (j : Job) → due now j ≡ true → Ready now j
due-Ready now j h =
    let (waits, passed) = and_elim (is_queued j.state) (leb j.run_after now) h in
    (of_state j.state waits, leb→le j.run_after now passed)
  where
    of_state : (s : JobState) → is_queued s ≡ true → s ≡ queued
    of_state queued h = refl
    of_state running h = cc
    of_state JobState.done h = cc
    of_state JobState.failed h = cc
    of_state dead h = cc

Ready-due : (now : ℕ) (j : Job) → Ready now j → due now j ≡ true
Ready-due now j (waits, passed) =
    let at_time : leb j.run_after now ≡ true = ground arith in
    and_intro _ _ (ap is_queued waits) at_time

not_after : (a m b n : ℕ) → before a m b n ≡ false → (b < a) ⊎ ((b ≡ a) × (n ≤ m))
not_after a m b n h = ground arith

-- While a job of the queue waits and may run, the worker claims a job of the queue that waits and may
-- run, and does not come after that job in the order of the times and the numbers.
pub claim-earliest :
    (now : ℕ) (db : List Job) (r : Job)
    → In r db
    → r.state ≡ queued
    → r.run_after ≤ now
    → (j : Job) × ((claim now db).0 ≡ some (started now j))
      × In j db
      × (j.state ≡ queued)
      × (j.run_after ≤ now)
      × ((j.run_after < r.run_after) ⊎ ((j.run_after ≡ r.run_after) × (j.id ≤ r.id)))
unfolding claim
claim-earliest now db r h waits passed =
    let (j, found, here, order) = next_due-earliest now r db h (Ready-due now r (waits, passed)) in
    let (queues, may_run) = due-Ready now j (next_due-due now db found) in
    (
      j,
      ap (λ o. (claimed now db o).0) found,
      here,
      queues,
      may_run,
      not_after r.run_after r.id j.run_after j.id order,
    )
