-- ===== src/Kernel/Jobs/Attempts.antt =====
-- The attempts that a row of the queue may have used (apps/api/src/flo/kernel/jobs/queue.py).
use mathlib.Core.Path.{subst}
use xlr8_flo.Common.{
  ℕ, ◌≡◌, ◌∙◌, Bool, true, false, ◌&&◌, ◌||◌, List, arith, ltb, leb, all, all-append, and_intro,
}
use xlr8_flo.Common.Problems.{ok, >>-eq-ok, ok-injective}
use xlr8_flo.Kernel.Jobs.{JobState, queued, running, Job, JobRequest, enqueue}

-- The attempts that a state allows.
abbrev pub state_ok : JobState → ℕ → ℕ → Bool
state_ok queued attempts max = ltb attempts max
state_ok running attempts max = leb 1 attempts && leb attempts max
state_ok _ attempts max = leb attempts max

abbrev pub well : Job → Bool
well j = leb 1 j.max_attempts && leb j.max_attempts 5 && state_ok j.state j.attempts j.max_attempts

-- Every job has between one and five attempts, has used no more than those, and waits in the queue
-- only while one is left.
pub record Bounded (db : List Job) : Type 0 where
  pub holds : all well db ≡ true

new_well : (m : ℕ) → (ltb m 1 || ltb 5 m) ≡ false → ((leb 1 m && leb m 5 && ltb 0 m) && true) ≡ true
new_well m h = ground arith

-- A job that is put in the queue has all of its attempts left.
pub enqueue-Bounded :
    (now : ℕ) (req : JobRequest) (db : List Job) {j : Job} {db' : List Job}
    → Bounded db
    → enqueue now req db ≡ ok (j, db')
    → Bounded db'
unfolding enqueue all
enqueue-Bounded now req db b h =
    let (_, h₁) = >>-eq-ok _ _ _ h in
    let (_, h₂) = >>-eq-ok _ _ _ h₁ in
    let (limits, h₃) = >>-eq-ok _ _ _ h₂ in
    subst (λ r. Bounded r.1) (ok-injective h₃)
      (record {
        holds = all-append well db _ ∙ and_intro _ _ b.holds (new_well req.max_attempts limits);
      })
