-- ===== src/Kernel/Jobs/Runs.antt =====
-- Runs of the worker over a well-formed queue (apps/api/src/flo/kernel/jobs/runner.py).
use mathlib.Core.Path.{subst}
use xlr8_flo.Common.{
  ℕ, ◌^◌, ◌≤◌, ◌≡◌, refl, inl, inr, String, Bool, true, false, ◌&&◌, ◌||◌, Option-cases, List, [],
  ◌∷◌, arith, ◌==◌, ltb, leb, all, Bool-cases, and_elim,
}
use xlr8_flo.Common.Problems.{Result, ok, err, is_ok-ok, raise_if, >>=-eq-ok, ok-injective}
use xlr8_flo.Kernel.Jobs.{Job, is_running, next_due, started, same_job, start_row, claim}
use xlr8_flo.Kernel.Jobs.Attempts.{well}
use xlr8_flo.Kernel.Jobs.Drain.{execute-settles}
use xlr8_flo.Kernel.Jobs.{
  complete, retry, bury, buried, Handled, returned, transient, permanent, other, Outcome, Handlers,
  record_dead, complete_or_bury, settle, handle, execute, Summary, Pass, step_run, drain,
  count_claim, count_one, backoff_seconds, nothing_yet, run,
}
use xlr8_flo.Kernel.Jobs.Settled.{Sound, fits, Claimed, transition-Sound, claim-Claimed}

ended_bounds :
    (j r : Job)
    → (same_job j r && is_running r.state) ≡ true
    → well r ≡ true
    → (leb 1 r.max_attempts && leb r.max_attempts 5 && leb r.attempts r.max_attempts) ≡ true
ended_bounds j r m w = ground arith

waiting_bounds :
    (j r : Job)
    → (same_job j r && is_running r.state) ≡ true
    → fits j r ≡ true
    → leb j.max_attempts j.attempts ≡ false
    → well r ≡ true
    → (leb 1 r.max_attempts && leb r.max_attempts 5 && ltb r.attempts r.max_attempts) ≡ true
waiting_bounds j r m f left w = ground arith

module _ (j : Job) (db : List Job) (c : Claimed j db) where
  record_dead-Sound :
      (now : ℕ) (error : String) {r : Outcome × List Job}
      → record_dead now error j db ≡ ok r
      → Sound r.1
  unfolding record_dead bury
  record_dead-Sound now error h =
      let (db', sets, same) = >>=-eq-ok _ _ h in
      subst (λ q. Sound q.1) (ok-injective same)
        (transition-Sound (buried now error) j db (λ r. refl) (λ r m _ w. ended_bounds j r m w)
          c.sound c.known sets)

  complete-Sound : (now : ℕ) {db' : List Job} → complete now j db ≡ ok db' → Sound db'
  unfolding complete
  complete-Sound now h =
      transition-Sound _ j db (λ r. refl) (λ r m _ w. ended_bounds j r m w) c.sound c.known h

  complete_or_bury-Sound :
      (now : ℕ) (m : Result (List Job)) {r : Outcome × List Job}
      → complete now j db ≡ m
      → complete_or_bury now j db m ≡ ok r
      → Sound r.1
  unfolding complete_or_bury
  complete_or_bury-Sound now (ok db₁) done h =
      subst (λ q. Sound q.1) (ok-injective h) (complete-Sound now done)
  complete_or_bury-Sound now (err e) done h = record_dead-Sound now "RuntimeError" h

  retry-Sound :
      (now delay : ℕ) (error : String) {db' : List Job}
      → leb j.max_attempts j.attempts ≡ false
      → retry now delay error j db ≡ ok db'
      → Sound db'
  unfolding retry
  retry-Sound now delay error left h =
      transition-Sound _ j db (λ r. refl) (λ r m f w. waiting_bounds j r m f left w) c.sound c.known
        h

  transient-Sound :
      (seconds_of : ℕ → ℕ) (fraction now : ℕ) (error : String) {r : Outcome × List Job}
      → settle seconds_of fraction now (transient error) j db ≡ ok r
      → Sound r.1
  unfolding settle
  transient-Sound seconds_of fraction now error h =
      elim (Bool-cases (leb j.max_attempts j.attempts)) [
        | inl spent ↦ record_dead-Sound now error (rw (spent) at h)
        | inr left ↦
            let (delay, _, h₁) =
              >>=-eq-ok (backoff_seconds j.attempts fraction) _ (rw (left) at h) in
            let (db', sets, same) = >>=-eq-ok (retry now (seconds_of delay) error j db) _ h₁ in
            subst (λ q. Sound q.1) (ok-injective same)
              (retry-Sound now (seconds_of delay) error left sets)
      ]

  settle-Sound :
      (seconds_of : ℕ → ℕ) (fraction now : ℕ) (what : Handled) {r : Outcome × List Job}
      → settle seconds_of fraction now what j db ≡ ok r
      → Sound r.1
  unfolding settle
  settle-Sound seconds_of fraction now returned h = complete_or_bury-Sound now _ refl h
  settle-Sound seconds_of fraction now (transient error) h =
      transient-Sound seconds_of fraction now error h
  settle-Sound seconds_of fraction now (permanent error) h = record_dead-Sound now error h
  settle-Sound seconds_of fraction now (other error) h = record_dead-Sound now error h

  pub execute-Sound :
      (handlers : Handlers) (seconds_of : ℕ → ℕ) (fraction now : ℕ) {r : Outcome × List Job}
      → execute handlers seconds_of fraction now j db ≡ ok r
      → Sound r.1
  unfolding execute
  execute-Sound handlers seconds_of fraction now h =
      settle-Sound seconds_of fraction now (handle handlers j) h

-- Python's `random.random()` stays below one.
abbrev pub in_range : Pass → Bool
in_range pass = ltb pass.fraction (2 ^ 53)

-- A result that was returned, with a queue that is sound.
abbrev Returns : Result (Summary × List Job) → Type 0
Returns m = (r : Summary × List Job) × (m ≡ ok r) × Sound r.1

module _ (handlers : Handlers) (seconds_of : ℕ → ℕ) where
  step_run-Returns :
      (pass : Pass) (db : List Job) (s : Summary)
      (continue : Summary → List Job → Result (Summary × List Job))
      → in_range pass ≡ true
      → Sound db
      → ((t : Summary) (rows : List Job) → Sound rows → Returns (continue t rows))
      → Returns (step_run handlers seconds_of pass (claim pass.now db) s continue)
  unfolding step_run claim
  step_run-Returns pass db s continue low good later = elim (Option-cases (next_due pass.now db)) [
    | inl idle ↦ rw (idle) ((s, db), refl, good)
    | inr (j, found) ↦
        let known = claim-Claimed pass.now db good found in
        let (q, same) = is_ok-ok _ (
          execute-settles (started pass.now j) (start_row pass.now j db) known.held handlers
            seconds_of pass.fraction pass.now (ground arith) known.tried known.limit) in
        let (r, next, kept) =
          later (count_one q.0 (count_claim s)) q.1
            (execute-Sound _ _ known handlers seconds_of pass.fraction pass.now same) in
        rw (found) (r, rw (same) next, kept)
  ]

  drain-Returns :
      (passes : List Pass) (s : Summary) (db : List Job)
      → all in_range passes ≡ true
      → Sound db
      → Returns (drain handlers seconds_of passes s db)
  unfolding drain all
  drain-Returns [] s db low good = ((s, db), refl, good)
  drain-Returns (pass ∷ passes) s db low good =
      let (first, rest) = and_elim _ _ low in
      step_run-Returns pass db s (λ t d. drain handlers seconds_of passes t d) first good
        (λ t d k. drain-Returns passes t d rest k)

  -- Whatever the handlers do, a run of the worker with a budget of 1 to 50 seconds, in each pass of
  -- which the random fraction is below one, returns, on a queue where no two rows share a number and
  -- each row's attempts are within its limit; and both still hold of the queue that it leaves.
  pub run-returns :
      (budget : ℕ) (passes : List Pass) (db : List Job)
      → 1 ≤ budget
      → budget ≤ 50
      → all in_range passes ≡ true
      → Sound db
      → (r : Summary × List Job) × (run handlers seconds_of budget passes db ≡ ok r) × Sound r.1
  unfolding run raise_if
  run-returns budget passes db low high draws good =
      let (r, same, kept) = drain-Returns passes nothing_yet db draws good in
      let allowed : (budget == 0 || ltb 50 budget) ≡ false = ground arith in
      (r, rw (allowed) same, kept)
