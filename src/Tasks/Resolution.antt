-- ===== src/Tasks/Resolution.antt =====
-- What becomes of a task after its execution: crates/rack_ai_application/src/run_next_task/resolution.rs.
use rack_ai.Common.{ℕ, Option, none, some, ok, ok_or, if◌then◌else◌, unwrap_or}
use rack_ai.Common.Text.{Text}
use rack_ai.Domain.Dag.{all_succeeded, dag_mark_succeeded, dag_mark_pending, dag_mark_failed}
use rack_ai.Domain.Runs.{
  RunState, with_dag_run_state, with_metadata, meta_completed, meta_queued, meta_failed,
  succeed_run, queue_run, fail_run, can_retry,
}
use rack_ai.Tasks.Specs.{TaskError, valued}
use rack_ai.Tasks.Effects.{
  Services, QueuedTask, TaskExecution, Call, Calls, perform, return, ◌>>=◌, ◌>>◌,
}

pub data RunNextOutcome : Type 0 where
  no_queued_tasks no_admissible_tasks : RunNextOutcome
  succeeded requeued failed : Text → RunNextOutcome

pub record ExecutionResult : Type 0 where
  pub queued_task : QueuedTask
  pub started_run_state : RunState
  pub execution : TaskExecution

-- The text "execution failed".
abbrev pub execution_failed : ℕ
execution_failed = 1

abbrev pub error_of : TaskExecution → ℕ
error_of e = unwrap_or e.last_error execution_failed

-- The runs that a resolution stores, apart from their graphs.
abbrev pub completed_run : ExecutionResult → ℕ → RunState
completed_run r finished_at =
    with_metadata (meta_completed finished_at r.execution.result_path r.started_run_state.metadata)
      (succeed_run r.started_run_state)

abbrev pub requeued_run : ExecutionResult → ℕ → Option ℕ → RunState
requeued_run r finished_at last_error =
    with_metadata
      (meta_queued r.queued_task.spec_path finished_at r.execution.result_path last_error
        r.started_run_state.metadata)
      (queue_run r.started_run_state)

abbrev pub failed_run : ExecutionResult → ℕ → RunState
failed_run r finished_at =
    with_metadata
      (meta_failed finished_at r.execution.result_path (error_of r.execution)
        r.started_run_state.metadata)
      (fail_run r.started_run_state)

-- A run is stored, and then its task leaves the queue for good or goes back to it.
abbrev pub finish : Services → QueuedTask → RunState → RunNextOutcome → Calls RunNextOutcome
finish services task run outcome = do
  perform (Call.save run) (services.save_run run)
  perform (Call.complete task) (services.complete_task task)
  return (ok outcome)

abbrev pub put_back : Services → QueuedTask → RunState → Calls RunNextOutcome
put_back services task run = do
  perform (Call.save run) (services.save_run run)
  perform (Call.requeue task) (services.requeue_task task)
  return (ok (RunNextOutcome.requeued task.task_id))

unfoldable pub resolve_dag_success : Services → ExecutionResult → ℕ → ℕ → Calls RunNextOutcome
resolve_dag_success services r id finished_at = do
  d ← return (ok_or r.started_run_state.dag_run_state TaskError.dag_state_missing)
  marked ← return (valued (dag_mark_succeeded id finished_at r.execution.result_path d))
  if all_succeeded marked
      then finish services r.queued_task (with_dag_run_state marked (completed_run r finished_at))
          (RunNextOutcome.succeeded r.queued_task.task_id)
      else put_back services r.queued_task
          (with_dag_run_state marked (requeued_run r finished_at none))

unfoldable pub resolve_dag_failure : Services → ExecutionResult → ℕ → ℕ → Calls RunNextOutcome
resolve_dag_failure services r id finished_at = do
  d ← return (ok_or r.started_run_state.dag_run_state TaskError.dag_state_missing)
  if can_retry r.started_run_state
      then (do
        marked ← return (valued (dag_mark_pending id (error_of r.execution) d))
        put_back services r.queued_task
            (with_dag_run_state marked (requeued_run r finished_at (some (error_of r.execution)))))
      else (do
        marked ← return (
            valued
              (dag_mark_failed id finished_at r.execution.result_path (error_of r.execution) d))
        finish services r.queued_task (with_dag_run_state marked (failed_run r finished_at))
            (RunNextOutcome.failed r.queued_task.task_id))

unfoldable pub resolve_dag_execution : Services → ExecutionResult → ℕ → Calls RunNextOutcome
resolve_dag_execution services r id = do
  finished_at ← perform Call.now services.now_text
  if r.execution.success
      then resolve_dag_success services r id finished_at
      else resolve_dag_failure services r id finished_at

unfoldable pub resolve_linear_execution : Services → ExecutionResult → Calls RunNextOutcome
resolve_linear_execution services r = do
  finished_at ← perform Call.now services.now_text
  if r.execution.success
      then finish services r.queued_task (completed_run r finished_at)
          (RunNextOutcome.succeeded r.queued_task.task_id)
      else if can_retry r.started_run_state
      then put_back services r.queued_task
          (requeued_run r finished_at (some (error_of r.execution)))
      else finish services r.queued_task (failed_run r finished_at)
          (RunNextOutcome.failed r.queued_task.task_id)
