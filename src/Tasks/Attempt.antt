-- ===== src/Tasks/Attempt.antt =====
-- The attempt of a selected task: crates/rack_ai_application/src/run_next_task/attempt.rs. Its result
-- comes with whether the executor was invoked, which the code keeps in a cell.
use rack_ai.Common.{ℕ, Bool, true, false, List, ◌∷◌, Option, none, some, Outcome, ok, err, ok_or}
use rack_ai.Domain.Dag.{dag_mark_running}
use rack_ai.Domain.Runs.{RunState, start_run, with_dag_run_state, with_metadata, meta_running}
use rack_ai.Tasks.Specs.{TaskError, Answer, valued, build_execution_spec}
use rack_ai.Tasks.Effects.{
  Services, TaskExecution, TaskExecutionRequest, failed_execution, Call, Calls, Log, perform,
  return, ◌>>=◌, ◌>>◌, succeeded,
}
use rack_ai.Tasks.Selection.{SelectedTask}
use rack_ai.Tasks.Resolution.{
  RunNextOutcome, ExecutionResult, resolve_dag_execution, resolve_linear_execution,
}

pub record AttemptInput : Type 0 where
  pub selected : SelectedTask
  pub started : ℕ
  pub leases : List (ℕ × ℕ)

abbrev pub running_run : AttemptInput → Option ℕ → RunState
running_run input node =
    let s = input.selected in
    with_metadata
      (meta_running input.started s.queued_task.spec_path input.leases s.run_state.metadata)
      (start_run node s.run_state)

abbrev pub request_of : AttemptInput → Option ℕ → TaskExecutionRequest
request_of input json = record {
  task_id = input.selected.queued_task.task_id;
  source_spec_path = input.selected.queued_task.spec_path;
  execution_spec_json = json;
}

-- An executor's error is a failed execution.
abbrev pub execution_of : Outcome ℕ TaskExecution → TaskExecution
execution_of (ok execution) = execution
execution_of (err message) = failed_execution message none

unfoldable pub invoke : Services → TaskExecutionRequest → Calls TaskExecution
invoke services request log =
    let result = services.execute_task request log in
    (ok (execution_of result), (Call.execute request, succeeded result) ∷ log)

-- Before the invocation: the running state is stored, and the request is built.
unfoldable pub prepare_dag : Services → AttemptInput → Calls (RunState × ℕ × TaskExecutionRequest)
prepare_dag services input =
    let s = input.selected in
    do
      id ← return (ok_or s.active_node_id TaskError.active_node_missing)
      d ← return (ok_or s.run_state.dag_run_state TaskError.dag_state_missing)
      marked ← return (valued (dag_mark_running id input.started d))
      perform (Call.save (with_dag_run_state marked (running_run input (some id))))
          (services.save_run (with_dag_run_state marked (running_run input (some id))))
      execution ← return (build_execution_spec s.task_spec id s.placement)
      json ← return (services.to_json execution)
      return (
          ok (
            with_dag_run_state marked (running_run input (some id)),
            id,
            request_of input (some json),
          ))

unfoldable pub prepare_linear : Services → AttemptInput → Calls (RunState × TaskExecutionRequest)
prepare_linear services input = do
  perform (Call.save (running_run input none)) (services.save_run (running_run input none))
  return (ok (running_run input none, request_of input none))

-- The result, whether the executor was invoked, and the log.
abbrev pub Attempted : Type 0
Attempted = Answer RunNextOutcome × Bool × Log

abbrev pub invoked : Answer RunNextOutcome × Log → Attempted
invoked (result, log) = (result, true, log)

abbrev pub result_of : AttemptInput → RunState → TaskExecution → ExecutionResult
result_of input run execution = record {
  queued_task = input.selected.queued_task;
  started_run_state = run;
  execution = execution;
}

unfoldable pub run_dag :
    Services → AttemptInput → Answer (RunState × ℕ × TaskExecutionRequest) × Log → Attempted
run_dag services input (err e, log) = (err e, false, log)
run_dag services input (ok (run, id, request), log) = invoked (
    (invoke services request >>= λ execution.
    resolve_dag_execution services (result_of input run execution) id)
      log)

unfoldable pub run_linear :
    Services → AttemptInput → Answer (RunState × TaskExecutionRequest) × Log → Attempted
run_linear services input (err e, log) = (err e, false, log)
run_linear services input (ok (run, request), log) = invoked (
    (invoke services request >>= λ execution.
    resolve_linear_execution services (result_of input run execution))
      log)

unfoldable pub execute_dag_task : Services → AttemptInput → Log → Attempted
execute_dag_task services input log = run_dag services input (prepare_dag services input log)

unfoldable pub execute_linear_task : Services → AttemptInput → Log → Attempted
execute_linear_task services input log =
    run_linear services input (prepare_linear services input log)
