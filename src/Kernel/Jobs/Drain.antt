-- ===== src/Kernel/Jobs/Drain.antt =====
-- The execution of a claimed job and the delay of its retry (apps/api/src/flo/kernel/jobs).
use xlr8_flo.Common.{
  ℕ, zero, suc, ◌+◌, ◌*◌, ◌^◌, ◌≤◌, ◌<◌, ◌≡◌, refl, inl, inr, String, true, ◌&&◌, List, arith, leb,
  any, Bool-cases, leb-false,
}
use xlr8_flo.Common.Problems.{Result, ok, err, is_ok, is_ok-ok, raise_if}
use xlr8_flo.Kernel.Jobs.{
  Job, is_running, same_job, transition, retry, bury, second, nearest_eighth, backoff_seconds,
  Handled, returned, transient, permanent, other, Handlers, record_dead, buried, complete_or_bury,
  settle, handle, execute,
}

-- The row of a job that a worker holds.
abbrev pub Held : Job → List Job → Type 0
Held j db = any (λ r. same_job j r && is_running r.state) db ≡ true

nearest_eighth-le : (n : ℕ) → n < 2 ^ 53 → nearest_eighth n ≤ 2 ^ 50
unfolding nearest_eighth
nearest_eighth-le n h = ground arith

-- A delay, for each of the five attempts: at least the attempt's base, which is four times the base
-- before it, and at most a quarter more, as the rounded sum of doubles has it.
pub backoff_bounds :
    (attempt fraction : ℕ)
    → 1 ≤ attempt
    → attempt ≤ 5
    → fraction < 2 ^ 53
    → (delay : ℕ) × (backoff_seconds attempt fraction ≡ ok delay)
      × (4 ^ attempt * second ≤ 4 * delay)
      × (16 * delay ≤ 5 * (4 ^ attempt * second))
unfolding backoff_seconds raise_if
backoff_bounds (suc zero) n a b f =
    let m = nearest_eighth n in
    let small = nearest_eighth-le n f in
    (1 * (second + m), ground arith, omega (arith, small), omega (arith, small))
backoff_bounds (suc (suc zero)) n a b f =
    let m = nearest_eighth n in
    let small = nearest_eighth-le n f in
    (4 * (second + m), ground arith, omega (arith, small), omega (arith, small))
backoff_bounds (suc (suc (suc zero))) n a b f =
    let m = nearest_eighth n in
    let small = nearest_eighth-le n f in
    (16 * (second + m), ground arith, omega (arith, small), omega (arith, small))
backoff_bounds (suc (suc (suc (suc zero)))) n a b f =
    let m = nearest_eighth n in
    let small = nearest_eighth-le n f in
    (64 * (second + m), ground arith, omega (arith, small), omega (arith, small))
backoff_bounds (suc (suc (suc (suc (suc zero))))) n a b f =
    let m = nearest_eighth n in
    let small = nearest_eighth-le n f in
    (256 * (second + m), ground arith, omega (arith, small), omega (arith, small))
backoff_bounds attempt n a b f = absurd (omega arith)

module _ (j : Job) (db : List Job) (h : Held j db) where
  transition-settles : (assign : Job → Job) → is_ok (transition assign j db) ≡ true
  unfolding transition raise_if
  transition-settles assign = rw (h)

  record_dead-settles : (now : ℕ) (error : String) → is_ok (record_dead now error j db) ≡ true
  unfolding record_dead bury
  record_dead-settles now error =
      let (db', same) = is_ok-ok _ (transition-settles (buried now error)) in rw (same)

  complete_or_bury-settles :
      (now : ℕ) (r : Result (List Job)) → is_ok (complete_or_bury now j db r) ≡ true
  unfolding complete_or_bury
  complete_or_bury-settles now (ok db₁) = refl
  complete_or_bury-settles now (err e) = record_dead-settles now "RuntimeError"

  retry-settles : (now delay : ℕ) (error : String) → is_ok (retry now delay error j db) ≡ true
  unfolding retry
  retry-settles now delay error = transition-settles _

  transient-settles :
      (seconds_of : ℕ → ℕ) (fraction now : ℕ) (error : String)
      → fraction < 2 ^ 53
      → 1 ≤ j.attempts
      → j.max_attempts ≤ 5
      → is_ok (settle seconds_of fraction now (transient error) j db) ≡ true
  unfolding settle
  transient-settles seconds_of fraction now error f low high =
      elim (Bool-cases (leb j.max_attempts j.attempts)) [
        | inl spent ↦ rw (spent) (record_dead-settles now error)
        | inr left ↦
            let (delay, waits, _, _) =
              backoff_bounds j.attempts fraction low
                (omega (arith, leb-false j.max_attempts j.attempts left)) f in
            let (db', same) = is_ok-ok _ (retry-settles now (seconds_of delay) error) in
            rw (left, waits, same)
      ]

  settle-settles :
      (seconds_of : ℕ → ℕ) (fraction now : ℕ) (what : Handled)
      → fraction < 2 ^ 53
      → 1 ≤ j.attempts
      → j.max_attempts ≤ 5
      → is_ok (settle seconds_of fraction now what j db) ≡ true
  unfolding settle
  settle-settles seconds_of fraction now returned f low high = complete_or_bury-settles now _
  settle-settles seconds_of fraction now (transient error) f low high =
      transient-settles seconds_of fraction now error f low high
  settle-settles seconds_of fraction now (permanent error) f low high =
      record_dead-settles now error
  settle-settles seconds_of fraction now (other error) f low high = record_dead-settles now error

  -- Whatever the handler of a job does, the execution of the job returns: the job's running row is
  -- there, it has been tried at least once, and it allows at most five attempts.
  pub execute-settles :
      (handlers : Handlers) (seconds_of : ℕ → ℕ) (fraction now : ℕ)
      → fraction < 2 ^ 53
      → 1 ≤ j.attempts
      → j.max_attempts ≤ 5
      → is_ok (execute handlers seconds_of fraction now j db) ≡ true
  unfolding execute
  execute-settles handlers seconds_of fraction now f low high =
      settle-settles seconds_of fraction now (handle handlers j) f low high
