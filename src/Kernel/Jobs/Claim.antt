-- ===== src/Kernel/Jobs/Claim.antt =====
-- The rows of the queue beside the job that `claim` (apps/api/src/flo/kernel/jobs/queue.py) takes.
use xlr8_flo.Common.{
  ℕ, ◌≡◌, ◌≢◌, refl, sym, ap, ◌∙◌, ◌⊎◌, inl, inr, Bool, true, false, not, ◌&&◌, ◌||◌, Option, none,
  some, List, [], ◌∷◌, arith, ◌==◌, ==_iff, any, all, Bool-cases, and_elim, and_intro, or-false,
  or_right, some-injective,
}
use mathlib.Core.Path.{subst}
use xlr8_flo.Kernel.Jobs.{Job, due, sooner, best, next_due, same_job}

-- `id` is the primary key.
unfoldable pub unique : List Job → Bool
unique [] = true
unique (j ∷ js) = not (any (λ r. r.id == j.id) js) && unique js

pub best-cases : (j : Job) (o : Option Job) → (best j o ≡ j) ⊎ (o ≡ some (best j o))
best-cases j none = inl refl
best-cases j (some k) = elim (Bool-cases (sooner k j)) [
  | inl first ↦ inr (rw (first))
  | inr later ↦ inl (rw (later))
]

-- The next job is the head of the list or the next of the rest.
pub next_due-cases :
    (now : ℕ) (j : Job) (js : List Job) {k : Job}
    → next_due now (j ∷ js) ≡ some k
    → ((k ≡ j) × (due now j ≡ true)) ⊎ (next_due now js ≡ some k)
unfolding next_due
next_due-cases now j js {k} h = elim (Bool-cases (due now j)) [
  | inl here ↦
      let picked : best j (next_due now js) ≡ k = some-injective (rw (here) at h) in
      elim (best-cases j (next_due now js)) [
        | inl head ↦ inl (sym picked ∙ head, here)
        | inr rest ↦ inr (rest ∙ ap some picked)
      ]
  | inr there ↦ inr (rw (there) at h)
]

none_due : (now : ℕ) {k : Job} → next_due now [] ≢ some k
unfolding next_due
none_due now h = cc

-- What holds for no row does not hold for the next job, which is due.
pub next_due-in :
    (now : ℕ) (p : Job → Bool) (js : List Job) {k : Job}
    → next_due now js ≡ some k
    → any p js ≡ false
    → p k ≡ false
unfolding any
next_due-in now p [] h none_here = absurd (none_due now h)
next_due-in now p (j ∷ js) {k} h none_here =
    let (first, rest) = or-false _ _ none_here in
    elim (next_due-cases now j js h) [
      | inl (same, _) ↦ ap p same ∙ first
      | inr later ↦ next_due-in now p js later rest
    ]

-- What holds for each row holds for the next job.
pub next_due-each :
    (now : ℕ) (p : Job → Bool) (js : List Job) {k : Job}
    → next_due now js ≡ some k
    → all p js ≡ true
    → p k ≡ true
unfolding all
next_due-each now p [] h each = absurd (none_due now h)
next_due-each now p (j ∷ js) {k} h each =
    let (first, rest) = and_elim _ _ each in
    elim (next_due-cases now j js h) [
      | inl (same, _) ↦ ap p same ∙ first
      | inr later ↦ next_due-each now p js later rest
    ]

pub next_due-due : (now : ℕ) (js : List Job) {k : Job} → next_due now js ≡ some k → due now k ≡ true
next_due-due now [] h = absurd (none_due now h)
next_due-due now (j ∷ js) {k} h = elim (next_due-cases now j js h) [
  | inl (same, here) ↦ ap (due now) same ∙ here
  | inr later ↦ next_due-due now js later
]

-- A row with the job's number is that job: it is due and has its attempts.
abbrev pub agrees : ℕ → Job → Job → Bool
agrees now j r =
    not (same_job j r) || due now r && r.attempts == j.attempts && r.max_attempts == j.max_attempts

pub eq_self : (n : ℕ) → (n == n) ≡ true
eq_self n = (==_iff n n).1 refl

eq_swap : (a b : ℕ) → (a == b) ≡ false → (b == a) ≡ false
eq_swap a b h = ground arith

apart_agrees : (now : ℕ) (j r : Job) → (r.id == j.id) ≡ false → agrees now j r ≡ true
apart_agrees now j r h = rw (eq_swap r.id j.id h)

of_not : (b : Bool) → not b ≡ true → b ≡ false
of_not true h = sym h
of_not false h = refl

self_agrees : (now : ℕ) (j : Job) → due now j ≡ true → agrees now j j ≡ true
self_agrees now j h =
    rw (h, eq_self j.attempts, eq_self j.max_attempts) (or_right (not (same_job j j)))

others_agree :
    (now : ℕ) (j : Job) (js : List Job)
    → any (λ r. r.id == j.id) js ≡ false
    → all (agrees now j) js ≡ true
unfolding any all
others_agree now j [] h = refl
others_agree now j (r ∷ rs) h =
    let (first, rest) = or-false _ _ h in
    and_intro _ _ (apart_agrees now j r first) (others_agree now j rs rest)

pub next_due-agrees :
    (now : ℕ) (db : List Job) {j : Job}
    → unique db ≡ true
    → next_due now db ≡ some j
    → all (agrees now j) db ≡ true
unfolding unique all
next_due-agrees now [] u h = refl
next_due-agrees now (h ∷ rest) {j} u found =
    let (apart, others) = and_elim _ _ u in
    elim (next_due-cases now h rest found) [
      | inl (same, here) ↦
          subst (λ k. (agrees now k h && all (agrees now k) rest) ≡ true) (sym same)
            (and_intro _ _ (self_agrees now h here) (others_agree now h rest (of_not _ apart)))
      | inr later ↦
          and_intro _ _
            (apart_agrees now j h
              (eq_swap j.id h.id (next_due-in now (λ r. r.id == h.id) rest later (of_not _ apart))))
            (next_due-agrees now rest others later)
    ]
