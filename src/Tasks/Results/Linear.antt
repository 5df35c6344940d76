-- ===== src/Tasks/Results/Linear.antt =====
-- The resolution of a task without a graph.
use rack_ai.Common.{ℕ, true, false, some, ◌≡◌, ok, if◌then◌else◌}
use rack_ai.Domain.Runs.{can_retry}
use rack_ai.Tasks.Effects.{Services, Call, Calls, Log, perform}
use rack_ai.Tasks.Results.{Stored, finish-Stored, put_back-Stored, bind-eq-ok, if-eq-ok}
use rack_ai.Tasks.Resolution.{
  RunNextOutcome, ExecutionResult, finish, put_back, resolve_linear_execution, completed_run,
  requeued_run, failed_run, error_of,
}

-- The three ends of a task without a graph.
pub data LinearResolved (r : ExecutionResult) (answer : RunNextOutcome) (after : Log) : Type 0 where
  completes :
      (at : ℕ)
      → r.execution.success ≡ true
      → answer ≡ RunNextOutcome.succeeded r.queued_task.task_id
      → Stored after (completed_run r at) (Call.complete r.queued_task)
      → LinearResolved r answer after
  retries :
      (at : ℕ)
      → r.execution.success ≡ false
      → can_retry r.started_run_state ≡ true
      → answer ≡ RunNextOutcome.requeued r.queued_task.task_id
      → Stored after (requeued_run r at (some (error_of r.execution))) (Call.requeue r.queued_task)
      → LinearResolved r answer after
  gives_up :
      (at : ℕ)
      → r.execution.success ≡ false
      → can_retry r.started_run_state ≡ false
      → answer ≡ RunNextOutcome.failed r.queued_task.task_id
      → Stored after (failed_run r at) (Call.complete r.queued_task)
      → LinearResolved r answer after

-- What follows the clock.
abbrev linear_branch : Services → ExecutionResult → ℕ → Calls RunNextOutcome
linear_branch services r at =
    if r.execution.success
    then finish services r.queued_task (completed_run r at)
        (RunNextOutcome.succeeded r.queued_task.task_id)
    else if can_retry r.started_run_state
    then put_back services r.queued_task (requeued_run r at (some (error_of r.execution)))
    else finish services r.queued_task (failed_run r at)
        (RunNextOutcome.failed r.queued_task.task_id)

module _ (services : Services) (r : ExecutionResult) {answer : RunNextOutcome} where
  linear_resolved :
      (at : ℕ) (log : Log)
      → (linear_branch services r at log).0 ≡ ok answer
      → LinearResolved r answer (linear_branch services r at log).1
  linear_resolved at log h =
      if-eq-ok (LinearResolved r answer) log r.execution.success _ _ h
        (λ e k. let p = finish-Stored services _ _ _ log k in completes at e p.0 p.1)
        (λ e k.
          if-eq-ok (LinearResolved r answer) log (can_retry r.started_run_state) _ _ k
            (λ c m. let p = put_back-Stored services _ _ log m in retries at e c p.0 p.1)
            (λ c m. let p = finish-Stored services _ _ _ log m in gives_up at e c p.0 p.1))

  -- Each answer of the resolution agrees with the execution, with the attempts that are left, and
  -- with what was stored last: a success completes the task, a failure puts it back while attempts
  -- are left and fails it otherwise.
  pub resolve_linear_execution-LinearResolved :
      (log : Log)
      → (resolve_linear_execution services r log).0 ≡ ok answer
      → LinearResolved r answer (resolve_linear_execution services r log).1
  unfolding resolve_linear_execution
  resolve_linear_execution-LinearResolved log h =
      let b = bind-eq-ok (perform Call.now services.now_text) (linear_branch services r) log h in
      rw b.2 (linear_resolved b.0 _ (rw b.2 at h))
