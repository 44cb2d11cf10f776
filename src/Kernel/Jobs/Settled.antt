-- ===== src/Kernel/Jobs/Settled.antt =====
-- What a worker knows of the job that it has claimed (apps/api/src/flo/kernel/jobs/queue.py).
use mathlib.Core.Path.{subst}
use xlr8_flo.Common.{
  ℕ, ◌≤◌, ◌≡◌, refl, ◌∙◌, inl, inr, Bool, true, false, not, ◌&&◌, ◌||◌, some, List, [], ◌∷◌,
  if◌then◌else◌, map, arith, or_right, ◌==◌, any, all, Bool-cases, and_elim, and_intro,
}
use xlr8_flo.Common.Problems.{ok, >>-eq-ok, ok-injective}
use xlr8_flo.Kernel.Jobs.{Job, is_running, due, next_due, started, same_job, start_row, transition}
use xlr8_flo.Kernel.Jobs.Attempts.{well}
use xlr8_flo.Kernel.Jobs.Claim.{
  unique, agrees, next_due-agrees, next_due-each, next_due-due, next_due-in, eq_self,
}
use xlr8_flo.Kernel.Jobs.Drain.{Held}

-- The number of each row occurs once, and its attempts are within its limit.
pub record Sound (db : List Job) : Type 0 where
  pub ids : unique db ≡ true
  pub bounds : all well db ≡ true

-- A running row of the job has the attempts that the worker knows.
abbrev pub fits : Job → Job → Bool
fits j r =
    not (same_job j r && is_running r.state)
    || r.attempts == j.attempts && r.max_attempts == j.max_attempts

module _ (p : Job → Bool) (f : Job → Job) (ids : (j : Job) → (f j).id ≡ j.id) where
  abbrev updated : List Job → List Job
  updated db = map (λ r. if p r then f r else r) db

  same_id : (j : Job) → (if p j then f j else j).id ≡ j.id
  same_id j = elim (Bool-cases (p j)) [ inl here ↦ rw (here) (ids j) | inr there ↦ rw (there) ]

  any_id-updated :
      (n : ℕ) (db : List Job) → any (λ r. r.id == n) (updated db) ≡ any (λ r. r.id == n) db
  unfolding any
  any_id-updated n [] = refl
  any_id-updated n (j ∷ js) = rw (same_id j, any_id-updated n js)

  unique-updated : (db : List Job) → unique (updated db) ≡ unique db
  unfolding unique
  unique-updated [] = refl
  unique-updated (j ∷ js) = rw (same_id j, any_id-updated j.id js, unique-updated js)

-- Two facts of every row give a third of the updated row.
all-updated :
    (p : Job → Bool) (f : Job → Job) (q g w : Job → Bool) (db : List Job)
    → ((j : Job) → p j ≡ true → q j ≡ true → g j ≡ true → w (f j) ≡ true)
    → ((j : Job) → p j ≡ false → q j ≡ true → g j ≡ true → w j ≡ true)
    → all q db ≡ true
    → all g db ≡ true
    → all w (map (λ r. if p r then f r else r) db) ≡ true
unfolding all
all-updated p f q g w [] hit miss h k = refl
all-updated p f q g w (j ∷ js) hit miss h k =
    let (h₁, h₂) = and_elim _ _ h in
    let (k₁, k₂) = and_elim _ _ k in
    and_intro _ _
      (elim (Bool-cases (p j)) [
        | inl here ↦ rw (here) (hit j here h₁ k₁)
        | inr there ↦ rw (there) (miss j there h₁ k₁)
      ])
      (all-updated p f q g w js hit miss h₂ k₂)

-- An assignment to the running row of a job that keeps its number and its bounds.
pub transition-Sound :
    (assign : Job → Job) (j : Job) (db : List Job) {db' : List Job}
    → ((r : Job) → (assign r).id ≡ r.id)
    → ((r : Job)
        → (same_job j r && is_running r.state) ≡ true
        → fits j r ≡ true
        → well r ≡ true
        → well (assign r) ≡ true)
    → Sound db
    → all (fits j) db ≡ true
    → transition assign j db ≡ ok db'
    → Sound db'
unfolding transition
transition-Sound assign j db ids keeps s f h =
    let (_, h₁) = >>-eq-ok _ _ _ h in
    subst Sound (ok-injective h₁) (record {
      ids = unique-updated (λ r. same_job j r && is_running r.state) assign ids db ∙ s.ids;
      bounds =
          all-updated (λ r. same_job j r && is_running r.state) assign (fits j) well well db keeps
            (λ r _ _ w. w) f s.bounds;
    })

started-fits :
    (now : ℕ) (j r : Job)
    → agrees now j r ≡ true
    → (same_job j r && due now r) ≡ true
    → fits (started now j) (started now r) ≡ true
started-fits now j r a m = ground arith

other-fits :
    (now : ℕ) (j r : Job)
    → agrees now j r ≡ true
    → (same_job j r && due now r) ≡ false
    → fits (started now j) r ≡ true
other-fits now j r a m = ground arith

started_bounds :
    (now : ℕ) (r : Job) → due now r ≡ true → well r ≡ true → well (started now r) ≡ true
started_bounds now r d w = ground arith

start_row-Sound : (now : ℕ) (j : Job) (db : List Job) → Sound db → Sound (start_row now j db)
unfolding start_row
start_row-Sound now j db s = record {
  ids = unique-updated (λ r. same_job j r && due now r) (started now) (λ r. refl) db ∙ s.ids;
  bounds =
      all-updated (λ r. same_job j r && due now r) (started now) well well well db
        (λ r m w _. started_bounds now r ((and_elim _ _ m).1) w) (λ r _ _ w. w) s.bounds s.bounds;
}

-- What a worker knows of the job that it has claimed.
pub record Claimed (j : Job) (db : List Job) : Type 0 where
  pub sound : Sound db
  pub held : Held j db
  pub known : all (fits j) db ≡ true
  pub tried : 1 ≤ j.attempts
  pub limit : j.max_attempts ≤ 5

held_row :
    (now : ℕ) (j : Job) (db : List Job)
    → any (λ r. same_job j r && due now r) db ≡ true
    → Held (started now j) (start_row now j db)
unfolding any start_row
held_row now j [] h = h
held_row now j (r ∷ rs) h = elim (Bool-cases (same_job j r && due now r)) [
  | inl here ↦ let found = (and_elim (same_job j r) (due now r) here).0 in rw (here, found)
  | inr there ↦ rw (held_row now j rs (rw (there) at h)) (or_right _)
]

next_due_here :
    (now : ℕ) (db : List Job) {j : Job}
    → next_due now db ≡ some j
    → any (λ r. same_job j r && due now r) db ≡ true
next_due_here now db {j} h = elim (Bool-cases (any (λ r. same_job j r && due now r) db)) [
  | inl there ↦ there
  | inr gone ↦
      let none_is : (same_job j j && due now j) ≡ false =
        next_due-in now (λ r. same_job j r && due now r) db h gone in
      let is_due : due now j ≡ true = next_due-due now db h in
      ground (arith, eq_self j.id, eq_self j.org_id)
]

pub claim-Claimed :
    (now : ℕ) (db : List Job) {j : Job}
    → Sound db
    → next_due now db ≡ some j
    → Claimed (started now j) (start_row now j db)
unfolding start_row
claim-Claimed now db {j} s h =
    let bounded : well j ≡ true = next_due-each now well db h s.bounds in
    record {
      sound = start_row-Sound now j db s;
      held = held_row now j db (next_due_here now db h);
      known =
          all-updated (λ r. same_job j r && due now r) (started now) (agrees now j) (agrees now j)
            (fits (started now j)) db (λ r m a _. started-fits now j r a m)
            (λ r m a _. other-fits now j r a m) (next_due-agrees now db s.ids h)
            (next_due-agrees now db s.ids h);
      tried = omega arith;
      limit = ground arith;
    }
