-- ===== src/Tasks/Running.antt =====
-- `RunNextTask::execute` of crates/rack_ai_application/src/run_next_task.rs.
use rack_ai.Common.{ℕ, Bool, true, false, none, some, ok, err, if◌then◌else◌}
use rack_ai.Domain.Runs.{RunState, queue_run, with_metadata, meta_queued}
use rack_ai.Tasks.Specs.{Answer, has_dag}
use rack_ai.Tasks.Effects.{
  Services, LeaseHandle, LeaseRequest, Call, Calls, Log, perform, return, ◌>>=◌, attempt_calls,
}
use rack_ai.Tasks.Selection.{SelectedTask, Selection, select_task}
use rack_ai.Tasks.Resolution.{RunNextOutcome}
use rack_ai.Tasks.Attempt.{AttemptInput, Attempted, execute_dag_task, execute_linear_task}

-- The clock and the leases; their time and their handle.
unfoldable pub acquire_for : Services → SelectedTask → Calls (ℕ × LeaseHandle)
acquire_for services s = do
  started ← perform Call.now services.now_text
  let request : LeaseRequest = record {
    task_id = s.run_state.task_id;
    placement = s.placement;
    acquired_at = started;
  }
  handle ← perform (Call.acquire request) (services.acquire_lease request)
  return (ok (started, handle))

-- The text "preparation failed before invocation".
abbrev pub preparation_failed : ℕ
preparation_failed = 2

unfoldable pub restore_run : Services → SelectedTask → Calls (Unit {0})
restore_run services s = do
  queued ← perform (Call.requeue s.queued_task) (services.requeue_task s.queued_task)
  at ← perform Call.now services.now_text
  let original : RunState =
      with_metadata
        (meta_queued queued.spec_path at none (some preparation_failed) s.run_state.metadata)
        (queue_run s.run_state)
  perform (Call.save original) (services.save_run original)

-- A task whose preparation failed before the executor was invoked goes back to the queue.
abbrev pub restored : Services → SelectedTask → Answer RunNextOutcome → Bool → Calls (Unit {0})
restored services s (ok outcome) was_invoked = return (ok tt)
restored services s (err e) true = return (ok tt)
restored services s (err e) false = restore_run services s

-- What follows the attempt, whose own result is the last to be returned.
unfoldable pub conclude :
    Services → SelectedTask → LeaseHandle → Attempted → Answer RunNextOutcome × Log
conclude services s handle (result, was_invoked, log) =
    let released = perform (Call.release handle) (services.release_lease handle) log in
    (restored services s result was_invoked >>= λ u. return released.0 >>= λ v. return result)
      released.1

unfoldable pub run_selected : Services → SelectedTask → ℕ × LeaseHandle → Calls RunNextOutcome
run_selected services s (started, handle) log =
    let input : AttemptInput = record { selected = s; started = started; leases = handle.paths } in
    conclude services s handle (
      if has_dag s.task_spec
      then execute_dag_task services input log
      else execute_linear_task services input log)

-- A task whose leases are refused goes back to the queue.
unfoldable pub with_leases :
    Services → SelectedTask → Answer (ℕ × LeaseHandle) → Calls RunNextOutcome
with_leases services s (ok acquired) = run_selected services s acquired
with_leases services s (err e) =
    perform (Call.requeue s.queued_task) (services.requeue_task s.queued_task) >>= λ task.
    return (err e)

unfoldable pub run_selection : Services → Selection → Calls RunNextOutcome
run_selection services Selection.none_queued = return (ok RunNextOutcome.no_queued_tasks)
run_selection services Selection.none_admissible = return (ok RunNextOutcome.no_admissible_tasks)
run_selection services (Selection.selected s) = do
  acquired ← attempt_calls (acquire_for services s)
  with_leases services s acquired

unfoldable pub execute : Services → Calls RunNextOutcome
execute services = do selection ← select_task services; run_selection services selection
