-- ===== src/Kernel/Tests.antt =====
-- The jobs and the idempotency keys of the kernel at work.
use xlr8_flo.Common.{
  ℕ, all, ◌+◌, ◌*◌, ◌^◌, ◌≤◌, ◌<◌, String, ◌≡◌, refl, inl, inr, true, none, some, List, [], ◌∷◌,
  find, any, arith, ◌⊎◌, if◌then◌else◌, ◌&&◌,
}
use xlr8_flo.Common.Membership.{In}
use xlr8_flo.Common.Equality.{◌===◌, String_eq}
use xlr8_flo.Common.Problems.{ok, is_ok, raise_if}
use xlr8_flo.Kernel.Jobs.{
  Job, started, queued, running, dead, Handlers, transient, Pass, Summary, second, enqueue,
  next_due, start_row, claim, transition, complete, retry, bury, backoff_seconds, record_dead,
  complete_or_bury, settle, execute, step_run, drain, run,
}
use xlr8_flo.Kernel.Jobs.Claim.{unique}
use xlr8_flo.Kernel.Jobs.Earliest.{claim-earliest}
use xlr8_flo.Kernel.Jobs.Settled.{Sound}
use xlr8_flo.Kernel.Jobs.Runs.{in_range, run-returns}
use xlr8_flo.Kernel.Jobs.Drain.{Held, backoff_bounds, execute-settles}
use xlr8_flo.Kernel.Jobs.Counting.{count, is_done, is_dead}
use xlr8_flo.Kernel.Jobs.Tally.{run-balanced}
use xlr8_flo.Kernel.Idempotency.{
  KeyRow, KeyState, ClaimResult, claimed, reused, replayed, StoredResponse, claim as claim_key,
  complete as complete_key, existing, claim_new, complete_rows,
}
use xlr8_flo.Kernel.Idempotency.Replay.{claim-replays, complete-granted}

abbrev waiting : Job
waiting = record {
  id = 1;
  org_id = 1;
  kind = "mail";
  payload = "{}";
  state = queued;
  attempts = 0;
  max_attempts = 2;
  run_after = 10;
  locked_at = none;
  finished_at = none;
  last_error = none;
  correlation_id = "c";
}

abbrev working : Job
working = record waiting { state = running; attempts = 1; locked_at = some 12 }

abbrev flaky : Handlers
flaky kind = some (λ j. transient "busy")

abbrev seconds : ℕ → ℕ
seconds delay = 1

backoff_bounds_example :
    (delay : ℕ) × (backoff_seconds 3 7 ≡ ok delay)
    × (4 ^ 3 * second ≤ 4 * delay)
    × (16 * delay ≤ 5 * (4 ^ 3 * second))
backoff_bounds_example = backoff_bounds 3 7 (omega arith) (omega arith) (omega arith)

Held-working : Held working (working ∷ [])
unfolding any
Held-working = refl

execute-settles_example : is_ok (execute flaky seconds 7 12 working (working ∷ [])) ≡ true
execute-settles_example =
    execute-settles working (working ∷ []) Held-working flaky seconds 7 12 (omega arith)
      (omega arith) (omega arith)

-- The first run puts the job off, the second has no attempt left for it.
abbrev passes : List Pass
passes =
    record { now = 12; fraction = 7 }
    ∷ record { now = 20; fraction = 7 }
    ∷ record { now = 30; fraction = 7 }
    ∷ []

abbrev two_runs : Summary
two_runs = record { claimed = 2; done = 0; retried = 1; dead = 1 }

abbrev buried_job : Job
buried_job = record waiting {
  state = dead;
  attempts = 2;
  run_after = 13;
  finished_at = some 20;
  last_error = some "busy";
}

drained : run flaky seconds 50 passes (waiting ∷ []) ≡ ok (two_runs, buried_job ∷ [])
unfolding any raise_if enqueue next_due start_row claim transition complete retry bury
    backoff_seconds record_dead complete_or_bury settle execute step_run drain run
drained = refl

waiting-Sound : Sound (waiting ∷ [])
unfolding any all unique
waiting-Sound = record { ids = refl; bounds = refl }

run-balanced_example :
    (two_runs.claimed ≡ two_runs.done + two_runs.retried + two_runs.dead)
    × (count is_done (buried_job ∷ []) ≡ two_runs.done + count is_done (waiting ∷ []))
    × (count is_dead (buried_job ∷ []) ≡ two_runs.dead + count is_dead (waiting ∷ []))
run-balanced_example = run-balanced flaky seconds 50 passes (waiting ∷ []) waiting-Sound drained

fractions_in_range : all in_range passes ≡ true
unfolding all
fractions_in_range = refl

run-returns_example :
    (r : Summary × List Job) × (run flaky seconds 50 passes (waiting ∷ []) ≡ ok r) × Sound r.1
run-returns_example =
    run-returns flaky seconds 50 passes (waiting ∷ []) (omega arith) (omega arith)
      fractions_in_range waiting-Sound

abbrev response : StoredResponse
response = record { status_code = 201; body = "{}"; headers = [] }

abbrev endpoint : String
endpoint = "POST /x"

abbrev hash : String
hash = "h"

abbrev other_hash : String
other_hash = "other"

abbrev open_row : KeyRow
open_row = record {
  key = "k";
  endpoint = endpoint;
  request_hash = hash;
  created_at = 5;
  state = KeyState.in_progress;
}

abbrev granted_rows : List KeyRow
granted_rows = open_row ∷ []

granted_runs :
    ◌≡◌ {A = ClaimResult × List KeyRow}
      (claim_key true 5 "k" endpoint hash [])
      (claimed, granted_rows)
unfolding claim_key existing claim_new find
granted_runs = refl

abbrev completed_rows : List KeyRow
completed_rows = record open_row { state = KeyState.completed response } ∷ []

completed_runs : complete_key "k" response granted_rows ≡ ok completed_rows
unfolding complete_key complete_rows any raise_if
completed_runs = refl

claim-replays_example :
    ◌≡◌ {A = ClaimResult × List KeyRow} (claim_key true 9 "k" endpoint other_hash completed_rows) (
      (if endpoint === endpoint && hash === other_hash then replayed response else reused),
      completed_rows,
    )
claim-replays_example =
    claim-replays true true 5 9 "k" endpoint hash endpoint other_hash response [] granted_runs
      completed_runs

complete-granted_example : is_ok (complete_key "k" response granted_rows) ≡ true
complete-granted_example = complete-granted true 5 "k" endpoint hash response [] granted_runs

-- A second job, due before the first.
abbrev urgent : Job
urgent = record waiting { id = 2; run_after = 5 }

claim-earliest_example :
    (j : Job) × ((claim 20 (waiting ∷ urgent ∷ [])).0 ≡ some (started 20 j))
    × In j (waiting ∷ urgent ∷ [])
    × (j.state ≡ queued)
    × (j.run_after ≤ 20)
    × ((j.run_after < 5) ⊎ ((j.run_after ≡ 5) × (j.id ≤ 2)))
claim-earliest_example =
    claim-earliest 20 (waiting ∷ urgent ∷ []) urgent (inr (inl refl)) refl (omega arith)
