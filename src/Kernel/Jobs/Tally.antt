-- ===== src/Kernel/Jobs/Tally.antt =====
-- The summary of a run of the worker beside the rows of the queue (runner.py and queue.py of
-- apps/api/src/flo/kernel/jobs).
use mathlib.Core.Path.{subst}
use xlr8_flo.Common.{ℕ, ◌+◌, ◌≡◌, refl, inl, inr, List, [], ◌∷◌, arith, Option-cases}
use xlr8_flo.Common.Problems.{Result, ok, >>=-eq-ok, >>-eq-ok, ok-injective}
use xlr8_flo.Kernel.Jobs.{
  Job, next_due, started, start_row, claim, Outcome, Handlers, was_done, was_retried, was_dead,
  handle, execute, Summary, count_claim, count_one, Pass, step_run, drain, nothing_yet, run,
}
use xlr8_flo.Kernel.Jobs.Settled.{Sound, claim-Claimed}
use xlr8_flo.Kernel.Jobs.Runs.{execute-Sound}
use xlr8_flo.Kernel.Jobs.Counting.{
  count, is_done, is_dead, Tallied, settle-Tallied, start_row-counts,
}

-- The summary, beside the queue at the start and now.
pub record Counted (s : Summary) (start now : List Job) : Type 0 where
  pub each : s.claimed ≡ s.done + s.retried + s.dead
  pub finished : count is_done now ≡ s.done + count is_done start
  pub lost : count is_dead now ≡ s.dead + count is_dead start

count_one-Counted :
    (o : Outcome) (s : Summary) (start a b c : List Job)
    → Counted s start a
    → (count is_done b ≡ count is_done a) × (count is_dead b ≡ count is_dead a)
    → Tallied o b c
    → Counted (count_one o (count_claim s)) start c
count_one-Counted was_done s start a b c k same t = record {
  each = omega (arith, k.each);
  finished = omega (arith, k.finished, same.0, t.0);
  lost = omega (arith, k.lost, same.1, t.1);
}
count_one-Counted was_retried s start a b c k same t = record {
  each = omega (arith, k.each);
  finished = omega (arith, k.finished, same.0, t.0);
  lost = omega (arith, k.lost, same.1, t.1);
}
count_one-Counted was_dead s start a b c k same t = record {
  each = omega (arith, k.each);
  finished = omega (arith, k.finished, same.0, t.0);
  lost = omega (arith, k.lost, same.1, t.1);
}

module _ (handlers : Handlers) (seconds_of : ℕ → ℕ) (start : List Job) where
  step_run-Counted :
      (pass : Pass) (db : List Job) (s : Summary)
      (continue : Summary → List Job → Result (Summary × List Job)) {r : Summary × List Job}
      → ((t : Summary) (rows : List Job)
          → Sound rows
          → Counted t start rows
          → continue t rows ≡ ok r
          → Counted r.0 start r.1)
      → Sound db
      → Counted s start db
      → step_run handlers seconds_of pass (claim pass.now db) s continue ≡ ok r
      → Counted r.0 start r.1
  unfolding step_run claim execute
  step_run-Counted pass db s continue later good k h = elim (Option-cases (next_due pass.now db)) [
    | inl idle ↦ subst (λ q. Counted q.0 start q.1) (ok-injective (rw (idle) at h)) k
    | inr (j, found) ↦
        let known = claim-Claimed pass.now db good found in
        let rows = start_row pass.now j db in
        let (p, ran, h₁) =
          >>=-eq-ok (execute handlers seconds_of pass.fraction pass.now (started pass.now j) rows) _
            (rw (found) at h) in
        later (count_one p.0 (count_claim s)) p.1
          (execute-Sound (started pass.now j) rows known handlers seconds_of pass.fraction pass.now
            ran)
          (count_one-Counted p.0 s start db rows p.1 k (start_row-counts pass.now j db) (
            settle-Tallied (started pass.now j) rows known.sound.ids seconds_of pass.fraction
              pass.now (handle handlers (started pass.now j)) ran))
          h₁
  ]

  drain-Counted :
      (passes : List Pass) (s : Summary) (db : List Job) {r : Summary × List Job}
      → Sound db
      → Counted s start db
      → drain handlers seconds_of passes s db ≡ ok r
      → Counted r.0 start r.1
  unfolding drain
  drain-Counted [] s db good k h = subst (λ q. Counted q.0 start q.1) (ok-injective h) k
  drain-Counted (pass ∷ passes) s db good k h =
      step_run-Counted pass db s (λ t d. drain handlers seconds_of passes t d)
        (λ t d g c e. drain-Counted passes t d g c e) good k h

-- On a queue where no two rows share a number and each row's attempts are within its limit, the
-- summary of a run that returns counts the rows: as many rows have become done, and as many dead, as
-- it says, and the jobs that it claimed are those done, retried and dead together.
pub run-balanced :
    (handlers : Handlers) (seconds_of : ℕ → ℕ) (budget : ℕ) (passes : List Pass) (db : List Job)
    {s : Summary} {db' : List Job}
    → Sound db
    → run handlers seconds_of budget passes db ≡ ok (s, db')
    → (s.claimed ≡ s.done + s.retried + s.dead)
      × (count is_done db' ≡ s.done + count is_done db)
      × (count is_dead db' ≡ s.dead + count is_dead db)
unfolding run
run-balanced handlers seconds_of budget passes db good h =
    let first : Counted nothing_yet db db = record {
      each = refl;
      finished = omega arith;
      lost = omega arith;
    } in
    let k =
      drain-Counted handlers seconds_of db passes nothing_yet db good first
        ((>>-eq-ok _ _ _ h).1) in
    (k.each, k.finished, k.lost)
