-- ===== src/Tasks/Attempts.antt =====
-- How often a task without a graph is executed.
use rack_ai.Common.{ℕ, Option, none, some, ◌≡◌, refl, ok, arith, ◌<◌, ◌^◌, suc, nat_eq}
use rack_ai.Common.Text.{Text}
use rack_ai.Domain.Runs.{
  RunState, RunMetadata, start_run, with_metadata, can_retry, queue_run, incremented,
}
use rack_ai.Tasks.Effects.{Services, Call, Log}
use rack_ai.Tasks.Resolution.{
  RunNextOutcome, ExecutionResult, resolve_linear_execution, requeued_run, error_of,
}
use rack_ai.Tasks.Results.{Stored}
use rack_ai.Tasks.Results.Linear.{LinearResolved, resolve_linear_execution-LinearResolved}

-- The runs that are stored for one task. Either an execution that was started from the run before was
-- resolved and put the task back, which counts, or the task was put back without an execution, by the
-- restoration after a failed preparation, or because its leases were refused or others blocked it.
pub data Attempts (first : RunState) : ℕ → RunState → Type 0 where
  submitted : Attempts first 0 first
  put_back :
      {n : ℕ} {before : RunState}
      → Attempts first n before
      → (m : RunMetadata) → Attempts first n (with_metadata m (queue_run before))
  waits :
      {n : ℕ} {before : RunState}
      → Attempts first n before
      → (m : RunMetadata) → Attempts first n (with_metadata m before)
  again :
      {n : ℕ} {before after : RunState}
      → Attempts first n before
      → (services : Services) (r : ExecutionResult) (m : RunMetadata) (log : Log) (id : Text)
      → r.started_run_state ≡ with_metadata m (start_run none before)
      → (resolve_linear_execution services r log).0 ≡ ok (RunNextOutcome.requeued id)
      → Stored (resolve_linear_execution services r log).1 after (Call.requeue r.queued_task)
      → Attempts first (suc n) after

same_run :
    (log : Log) (run other : RunState) (c d : Call)
    → Stored log run c
    → Stored log other d
    → run ≡ other
same_run log run other c d (r, e) (s, f) = ground (arith, e, f)

started_counts :
    (before : RunState) (m : RunMetadata) (r : ExecutionResult)
    → r.started_run_state ≡ with_metadata m (start_run none before)
    → (r.started_run_state.attempt_count ≡ incremented before.attempt_count)
      × (r.started_run_state.attempt_limit ≡ before.attempt_limit)
unfolding start_run
started_counts before m r e = (rw e refl, rw e refl)

requeued_counts :
    (r : ExecutionResult) (at : ℕ) (e : Option ℕ)
    → ((requeued_run r at e).attempt_count ≡ r.started_run_state.attempt_count)
      × ((requeued_run r at e).attempt_limit ≡ r.started_run_state.attempt_limit)
unfolding queue_run
requeued_counts r at e = (refl, refl)

-- A run that was put back has been attempted once more than the one before, and may be again.
requeued_once_more :
    (before after : RunState) (r : ExecutionResult) (m : RunMetadata) (log : Log) (id : Text)
    → r.started_run_state ≡ with_metadata m (start_run none before)
    → Stored log after (Call.requeue r.queued_task)
    → LinearResolved r (RunNextOutcome.requeued id) log
    → (after.attempt_count ≡ incremented before.attempt_count)
      × (after.attempt_limit ≡ before.attempt_limit)
      × (after.attempt_count < after.attempt_limit)
unfolding can_retry
requeued_once_more before after r m log id e s (LinearResolved.completes at a b t) = absurd (cc b)
requeued_once_more before after r m log id e s (LinearResolved.gives_up at a c b t) = absurd (cc b)
requeued_once_more before after r m log id e s (LinearResolved.retries at a c b t) =
    let same = same_run log after (requeued_run r at (some (error_of r.execution))) _ _ s t in
    let counts = requeued_counts r at (some (error_of r.execution)) in
    let start = started_counts before m r e in rw same (ground (arith, counts, start, c))

-- The resolutions of executions put a task that was submitted with a positive limit of attempts, of
-- 32 bits, back fewer times than that limit, however often it is put back or made to wait without an
-- execution in between; its run counts exactly these executions.
pub Attempts-bounded :
    (first : RunState) (n : ℕ) (after : RunState)
    → first.attempt_count ≡ 0
    → 0 < first.attempt_limit
    → first.attempt_limit < 2 ^ 32
    → Attempts first n after
    → (after.attempt_count ≡ n)
      × (after.attempt_limit ≡ first.attempt_limit)
      × (n < first.attempt_limit)
unfolding queue_run
Attempts-bounded first _ _ zero_count positive small submitted = (zero_count, refl, positive)
Attempts-bounded first n _ zero_count positive small (put_back {before} earlier m) =
    Attempts-bounded first n before zero_count positive small earlier
Attempts-bounded first n _ zero_count positive small (waits {before} earlier m) =
    Attempts-bounded first n before zero_count positive small earlier
Attempts-bounded first (suc n) after zero_count positive small
      (again {before} earlier services r m log id e answer stored) =
    let before_bound = Attempts-bounded first n before zero_count positive small earlier in
    let once =
      requeued_once_more before after r m (resolve_linear_execution services r log).1 id e stored
        (resolve_linear_execution-LinearResolved services r log answer) in
    ground (arith, before_bound, once)
