-- ===== src/Kernel/Jobs.antt =====
-- Background jobs: apps/api/src/flo/kernel/jobs (queue.py, backoff.py, runner.py).
pub mod Earliest
pub mod Attempts
pub mod Drain
pub mod Settled
pub mod Runs
pub mod Claim
pub mod Counting
pub mod Tally
use xlr8_flo.Common.{
  ℕ, zero, suc, ◌+◌, ◌*◌, ◌/◌, ◌%◌, ◌^◌, String, Bool, true, false, not, ◌&&◌, ◌||◌, Option, none,
  some, List, [], ◌∷◌, ◌++◌, ◌==◌, ltb, leb, if◌then◌else◌, any, map,
}
use xlr8_flo.Common.Equality.{◌===◌, String_eq}
use xlr8_flo.Common.Problems.{value_error, runtime_error, Result, ok, err, ◌>>=◌, ◌>>◌, raise_if}

pub data JobState : Type 0 where
  queued running done failed dead : JobState

-- A row of `job`; times are seconds.
pub record Job : Type 0 where
  pub id : ℕ
  pub org_id : ℕ
  pub kind : String
  pub payload : String
  pub state : JobState
  pub attempts : ℕ
  pub max_attempts : ℕ
  pub run_after : ℕ
  pub locked_at : Option ℕ
  pub finished_at : Option ℕ
  pub last_error : Option String
  pub correlation_id : String

-- The arguments of `enqueue`, with the correlation of the context and the number of `uuid4()`.
pub record JobRequest : Type 0 where
  pub id : ℕ
  pub org_id : ℕ
  pub kind : String
  pub payload : String
  pub max_attempts : ℕ
  pub run_after : Option ℕ
  pub correlation_id : String

-- JobQueue.enqueue
unfoldable pub enqueue : ℕ → JobRequest → List Job → Result (Job × List Job)
enqueue now req db = do
  raise_if (req.correlation_id === "") runtime_error
  raise_if (req.kind === "") value_error
  raise_if (ltb req.max_attempts 1 || ltb 5 req.max_attempts) value_error
  let job : Job = record {
    id = req.id;
    org_id = req.org_id;
    kind = req.kind;
    payload = req.payload;
    state = queued;
    attempts = 0;
    max_attempts = req.max_attempts;
    run_after = elim req.run_after [ none ↦ now | some at ↦ at ];
    locked_at = none;
    finished_at = none;
    last_error = none;
    correlation_id = req.correlation_id;
  }
  ok (job, db ++ job ∷ [])

abbrev pub is_queued : JobState → Bool
is_queued queued = true
is_queued _ = false

abbrev pub is_running : JobState → Bool
is_running running = true
is_running _ = false

-- state = 'queued' AND run_after <= CURRENT_TIMESTAMP
abbrev pub due : ℕ → Job → Bool
due now j = is_queued j.state && leb j.run_after now

-- ORDER BY run_after, id
abbrev pub sooner : Job → Job → Bool
sooner a b = ltb a.run_after b.run_after || a.run_after == b.run_after && ltb a.id b.id

abbrev pub best : Job → Option Job → Job
best j none = j
best j (some k) = if sooner k j then k else j

unfoldable pub next_due : ℕ → List Job → Option Job
next_due now [] = none
next_due now (j ∷ js) = let rest = next_due now js in if due now j then some (best j rest) else rest

abbrev pub started : ℕ → Job → Job
started now j = record j {
  state = running;
  locked_at = some now;
  attempts = j.attempts + 1;
  last_error = none;
}

abbrev pub same_job : Job → Job → Bool
same_job a b = a.id == b.id && a.org_id == b.org_id

-- The UPDATE of the row that the subquery has locked, for one worker.
unfoldable pub start_row : ℕ → Job → List Job → List Job
start_row now j db = map (λ r. if same_job j r && due now r then started now r else r) db

abbrev pub claimed : ℕ → List Job → Option Job → Option Job × List Job
claimed now db none = (none, db)
claimed now db (some j) = (some (started now j), start_row now j db)

-- WorkerJobQueue.claim
unfoldable pub claim : ℕ → List Job → Option Job × List Job
claim now db = claimed now db (next_due now db)

-- `_transition`: an assignment to the running row of a job, of which there is at most one.
unfoldable pub transition : (Job → Job) → Job → List Job → Result (List Job)
transition assign j db = do
  raise_if (not (any (λ r. same_job j r && is_running r.state) db)) runtime_error
  ok (map (λ r. if same_job j r && is_running r.state then assign r else r) db)

unfoldable pub complete : ℕ → Job → List Job → Result (List Job)
complete now = transition (λ r. record r { state = done; locked_at = none; finished_at = some now })

unfoldable pub retry : ℕ → ℕ → String → Job → List Job → Result (List Job)
retry now delay error = transition (λ r. record r {
  state = queued;
  locked_at = none;
  run_after = now + delay;
  last_error = some error;
})

abbrev buried : ℕ → String → Job → Job
buried now error r = record r {
  state = dead;
  locked_at = none;
  finished_at = some now;
  last_error = some error;
}

-- WorkerJobQueue.dead
unfoldable pub bury : ℕ → String → Job → List Job → Result (List Job)
bury now error = transition (buried now error)

-- BASE_DELAYS_SECONDS[attempt - 1]
abbrev pub base_delay : ℕ → Option ℕ
base_delay (suc zero) = some 1
base_delay (suc (suc zero)) = some 4
base_delay (suc (suc (suc zero))) = some 16
base_delay (suc (suc (suc (suc zero)))) = some 64
base_delay (suc (suc (suc (suc (suc zero))))) = some 256
base_delay _ = none

-- `random.random()` gives n / 2^53 for an n below 2^53, and `base * 0.25 * fraction` is exact. The
-- sum with the base, a power of four, is rounded to a double: between the base and twice the base the
-- doubles are multiples of 2^-52 of the base, and a tie goes to the even multiple. A delay counts 2^-52
-- of a second.
abbrev pub second : ℕ
second = 2 ^ 52

-- n / 8, rounded to a whole number, a tie to the even one.
unfoldable pub nearest_eighth : ℕ → ℕ
nearest_eighth n = if ltb (n % 8) 4 || n % 8 == 4 && (n / 8) % 2 == 0 then n / 8 else n / 8 + 1

unfoldable pub backoff_seconds : ℕ → ℕ → Result ℕ
unfolding nearest_eighth
backoff_seconds attempt fraction = elim (base_delay attempt) [
  | none ↦ err value_error
  | some base ↦ do
    raise_if (leb (2 ^ 53) fraction) value_error
    ok (base * (second + nearest_eighth fraction))
]

-- What a handler does, as the runner sees it: it returns, or raises an error of one of three classes
-- (its text is that of `_safe_error`), and its other writes are rolled back.
pub data Handled : Type 0 where
  returned : Handled
  transient : String → Handled
  permanent : String → Handled
  other : String → Handled

pub data Outcome : Type 0 where
  was_done was_retried was_dead : Outcome

abbrev pub Handlers : Type 0
Handlers = String → Option (Job → Handled)

-- `_record_dead`
unfoldable pub record_dead : ℕ → String → Job → List Job → Result (Outcome × List Job)
record_dead now error j db = do db₁ ← bury now error j db; ok (was_dead, db₁)

-- `complete` raising lands in `except Exception`.
unfoldable pub complete_or_bury :
    ℕ → Job → List Job → Result (List Job) → Result (Outcome × List Job)
complete_or_bury now j db (ok db₁) = ok (was_done, db₁)
complete_or_bury now j db (err e) = record_dead now "RuntimeError" j db

-- The delay in whole seconds of the column is left open: `seconds_of` rounds it.
unfoldable pub settle : (ℕ → ℕ) → ℕ → ℕ → Handled → Job → List Job → Result (Outcome × List Job)
settle seconds_of fraction now returned j db = complete_or_bury now j db (complete now j db)
settle seconds_of fraction now (transient error) j db =
    if leb j.max_attempts j.attempts then record_dead now error j db else do
      delay ← backoff_seconds j.attempts fraction
      db₁ ← retry now (seconds_of delay) error j db
      ok (was_retried, db₁)
settle seconds_of fraction now (permanent error) j db = record_dead now error j db
settle seconds_of fraction now (other error) j db = record_dead now error j db

abbrev pub handle : Handlers → Job → Handled
handle handlers j = elim (handlers j.kind) [
  | none ↦ permanent "job kind has no registered handler"
  | some f ↦ f j
]

-- `_execute`
unfoldable pub execute : Handlers → (ℕ → ℕ) → ℕ → ℕ → Job → List Job → Result (Outcome × List Job)
execute handlers seconds_of fraction now j db =
    settle seconds_of fraction now (handle handlers j) j db

pub record Summary : Type 0 where
  pub claimed : ℕ
  pub done : ℕ
  pub retried : ℕ
  pub dead : ℕ

-- `claimed += 1`, before the job is executed
abbrev pub count_claim : Summary → Summary
count_claim s = record s { claimed = suc s.claimed }

-- The counter of the outcome, after it
abbrev pub count_one : Outcome → Summary → Summary
count_one was_done s = record s { done = suc s.done }
count_one was_retried s = record s { retried = suc s.retried }
count_one was_dead s = record s { dead = suc s.dead }

-- One pass of the loop: the time that the clock shows, and the random fraction.
pub record Pass : Type 0 where
  pub now : ℕ
  pub fraction : ℕ

unfoldable pub step_run :
    Handlers
    → (ℕ → ℕ)
    → Pass
    → (Option Job × List Job)
    → Summary
    → (Summary → List Job → Result (Summary × List Job))
    → Result (Summary × List Job)
step_run handlers seconds_of pass (none, db) s continue = ok (s, db)
step_run handlers seconds_of pass (some j, db) s continue = do
  (outcome, db₁) ← execute handlers seconds_of pass.fraction pass.now j db
  continue (count_one outcome (count_claim s)) db₁

-- The loop of `run`, for the passes that the clock allows before the deadline.
unfoldable pub drain :
    Handlers → (ℕ → ℕ) → List Pass → Summary → List Job → Result (Summary × List Job)
drain handlers seconds_of [] s db = ok (s, db)
drain handlers seconds_of (pass ∷ passes) s db =
    step_run handlers seconds_of pass (claim pass.now db) s
      (λ s₁ db₁. drain handlers seconds_of passes s₁ db₁)

abbrev pub nothing_yet : Summary
nothing_yet = record { claimed = 0; done = 0; retried = 0; dead = 0 }

-- JobRunner.run, with the budget in seconds.
unfoldable pub run : Handlers → (ℕ → ℕ) → ℕ → List Pass → List Job → Result (Summary × List Job)
run handlers seconds_of budget passes db = do
  raise_if (budget == 0 || ltb 50 budget) value_error
  drain handlers seconds_of passes nothing_yet db
