-- ===== src/Examples/Tasks.antt =====
-- A task without a graph, and one of two nodes, the second of which depends on the first.
use rack_ai.Common.{
  ℕ, Bool, true, false, List, [], ◌∷◌, Option, some, none, ◌≡◌, refl, Outcome, ok, err, count_if,
  ◌+◌, ◌≤◌, arith, ◌<◌,
}
use rack_ai.Common.Text.{Text}
use rack_ai.Domain.Dag.{DagRunState, pending_node}
use rack_ai.Domain.Runs.{
  RunState, RunStatus, Placement, default_metadata, RunMetadata, start_run, with_metadata,
}
use rack_ai.Tasks.Specs.{Answer, TaskSpec, TaskDag, TaskDagNode, TaskError}
use rack_ai.Tasks.Effects.{
  Services, QueuedTask, TaskExecution, LeaseHandle, Log, Call, Calls, failed_execution,
}
use rack_ai.Tasks.Selection.{SelectedTask, Selection, select_task}
use rack_ai.Tasks.Resolution.{
  RunNextOutcome, ExecutionResult, resolve_linear_execution, resolve_dag_execution, requeued_run,
  execution_failed,
}
use rack_ai.Tasks.Running.{execute}
use rack_ai.Tasks.Once.{is_execution, is_disposal, execute-once, execute-disposes_once}
use rack_ai.Tasks.Leases.{is_grant, is_release, execute-releases}
use rack_ai.Tasks.Results.{Stored}
use rack_ai.Tasks.Results.Linear.{LinearResolved, resolve_linear_execution-LinearResolved}
use rack_ai.Tasks.Results.Graph.{DagResolved, resolve_dag_execution-DagResolved}
use rack_ai.Tasks.Attempts.{Attempts, Attempts-bounded}
use rack_ai.Tasks.Order.{Planned, select_task-Planned}

abbrev name : Text
name = b't' ∷ []

abbrev anywhere : Placement
anywhere = record { worker_ids = []; resource_ids = []; model_ids = []; backends = [] }

abbrev queued_task : QueuedTask
queued_task = record { task_id = name; spec_path = 10 }

abbrev stored_run : RunState
stored_run = record {
  task_id = name;
  status = RunStatus.queued;
  attempt_count = 0;
  attempt_limit = 2;
  timeout_seconds = 60;
  placement = anywhere;
  active_node_id = none;
  dag_run_state = none;
  metadata = default_metadata;
}

abbrev linear_spec : TaskSpec
linear_spec = record {
  task_id = name;
  placement = anywhere;
  template = none;
  request = none;
  dag = none;
}

abbrev dag_node : ℕ → List ℕ → TaskDagNode
dag_node id depends_on = record {
  id = id;
  name = none;
  worker = 3;
  cwd = 4;
  prompt = 5;
  depends_on = depends_on;
  artifacts = 6;
}

-- The dependent node is listed first.
abbrev graph_spec : TaskSpec
graph_spec = record linear_spec {
  dag = some (record { nodes = dag_node 1 (2 ∷ []) ∷ dag_node 2 [] ∷ [] });
}

-- Services that grant everything; the execution has the given result.
abbrev services_of : TaskSpec → Outcome ℕ TaskExecution → Services
services_of spec result = record {
  now_text = λ log. ok 100;
  list_tasks = λ log. ok (queued_task ∷ []);
  find_run = λ id log. ok (some stored_run);
  load_spec = λ task log. ok spec;
  claim_task = λ task log. ok task;
  complete_task = λ task log. ok tt;
  requeue_task = λ task log. ok task;
  resolve_worker = λ worker log. ok anywhere;
  blocked_resources = λ placement log. ok [];
  save_run = λ run log. ok tt;
  acquire_lease = λ request log. ok (record { owner = 1; generation = 2; paths = [] });
  release_lease = λ handle log. ok tt;
  execute_task = λ request log. result;
  to_json = λ spec. ok 7;
}

abbrev done : TaskExecution
done = record { success = true; result_path = none; last_error = none }

abbrev linear : Services
linear = services_of linear_spec (err 9)

abbrev graph : Services
graph = services_of graph_spec (ok done)

-- A run of the task with a graph executes one node, and the task goes back for the other.
graph_goes_on : (execute graph []).0 ≡ ok (RunNextOutcome.requeued name)
unfolding execute rack_ai.Tasks.Effects.◌>>=◌ select_task rack_ai.Tasks.Effects.perform
    rack_ai.Tasks.Selection.select_from rack_ai.Tasks.Effects.return rack_ai.Domain.Names.task_id
    rack_ai.Common.Text.trim rack_ai.Common.Text.trim_end_matches
    rack_ai.Common.Text.trim_start_matches rack_ai.Common.Text.is_whitespace
    rack_ai.Tasks.Selection.load_run_state rack_ai.Tasks.Selection.plan_task
    rack_ai.Tasks.Selection.plan_dag_task rack_ai.Tasks.Selection.ensure_dag_run_state
    rack_ai.Tasks.Specs.initial_dag_run rack_ai.Tasks.Specs.validate_dag
    rack_ai.Tasks.Specs.validate_nodes rack_ai.Common.Map.insert rack_ai.Common.Map.lookup
    rack_ai.Common.Map.remove rack_ai.Common.Map.values rack_ai.Domain.Dag.all_succeeded
    rack_ai.Domain.Dag.collect_nodes rack_ai.Domain.Dag.dag_mark_failed
    rack_ai.Domain.Dag.dag_mark_pending rack_ai.Domain.Dag.dag_mark_running
    rack_ai.Domain.Dag.dag_mark_succeeded rack_ai.Domain.Dag.is_ready_node
    rack_ai.Domain.Dag.map_node rack_ai.Domain.Dag.new_dag_run rack_ai.Domain.Dag.node_failed
    rack_ai.Domain.Dag.node_pending rack_ai.Domain.Dag.node_running
    rack_ai.Domain.Dag.node_succeeded pending_node rack_ai.Domain.Dag.ready_node_id_in_order
    rack_ai.Domain.Runs.can_retry rack_ai.Domain.Runs.fail_run rack_ai.Domain.Runs.meta_completed
    rack_ai.Domain.Runs.meta_failed rack_ai.Domain.Runs.meta_queued rack_ai.Domain.Runs.meta_ready
    rack_ai.Domain.Runs.meta_running rack_ai.Domain.Runs.meta_waiting rack_ai.Domain.Runs.queue_run
    start_run rack_ai.Domain.Runs.succeed_run rack_ai.Tasks.Attempt.execute_dag_task
    rack_ai.Tasks.Attempt.execute_linear_task rack_ai.Tasks.Attempt.invoke
    rack_ai.Tasks.Attempt.prepare_dag rack_ai.Tasks.Attempt.prepare_linear
    rack_ai.Tasks.Attempt.run_dag rack_ai.Tasks.Attempt.run_linear
    rack_ai.Tasks.Effects.attempt_calls rack_ai.Tasks.Effects.proceed rack_ai.Tasks.Effects.◌>>◌
    resolve_dag_execution rack_ai.Tasks.Resolution.resolve_dag_failure
    rack_ai.Tasks.Resolution.resolve_dag_success resolve_linear_execution
    rack_ai.Tasks.Running.acquire_for rack_ai.Tasks.Running.conclude
    rack_ai.Tasks.Running.restore_run rack_ai.Tasks.Running.run_selected
    rack_ai.Tasks.Running.run_selection rack_ai.Tasks.Running.with_leases
    rack_ai.Tasks.Selection.dag_node_placement rack_ai.Tasks.Selection.take_task
    rack_ai.Tasks.Selection.unless_blocked rack_ai.Tasks.Specs.build_execution_spec
    rack_ai.Tasks.Specs.execution_step rack_ai.Tasks.Specs.find_dag_node
    rack_ai.Tasks.Specs.find_node rack_ai.Tasks.Specs.first_ready_node_id
    rack_ai.Tasks.Specs.validate_dependencies
graph_goes_on = refl

execute-once_example : count_if is_execution (execute graph []).1 ≤ count_if is_execution [] + 1
execute-once_example = execute-once graph []

execute-disposes_once_example :
    count_if is_disposal (execute linear []).1 ≤ count_if is_disposal [] + 1
execute-disposes_once_example = execute-disposes_once linear []

execute-releases_example :
    count_if is_release (execute graph []).1 + count_if is_grant []
    ≡ count_if is_release [] + count_if is_grant (execute graph []).1
execute-releases_example = execute-releases graph []

abbrev attempted : RunState
attempted = with_metadata default_metadata (start_run none stored_run)

abbrev refused : ExecutionResult
refused = record {
  queued_task = queued_task;
  started_run_state = attempted;
  execution = failed_execution 9 none;
}

abbrev answered : Answer RunNextOutcome
answered = ok (RunNextOutcome.requeued name)

linear_is_put_back : (resolve_linear_execution linear refused []).0 ≡ answered
unfolding resolve_linear_execution rack_ai.Tasks.Effects.◌>>=◌ rack_ai.Tasks.Effects.perform
    rack_ai.Domain.Runs.can_retry start_run rack_ai.Tasks.Effects.◌>>◌ rack_ai.Tasks.Effects.return
linear_is_put_back = refl

resolve_linear_execution-LinearResolved_example :
    LinearResolved refused
      (RunNextOutcome.requeued name)
      (resolve_linear_execution linear refused []).1
resolve_linear_execution-LinearResolved_example =
    resolve_linear_execution-LinearResolved linear refused [] linear_is_put_back

last_calls :
    Stored
      (resolve_linear_execution linear refused []).1
      (requeued_run refused 100 (some 9))
      (Call.requeue queued_task)
unfolding resolve_linear_execution rack_ai.Tasks.Effects.◌>>=◌ rack_ai.Tasks.Effects.perform
    rack_ai.Domain.Runs.can_retry start_run rack_ai.Tasks.Effects.◌>>◌ rack_ai.Tasks.Effects.return
last_calls = ((Call.now, true) ∷ [], refl)

put_back_once : Attempts stored_run 1 (requeued_run refused 100 (some 9))
put_back_once =
    Attempts.again Attempts.submitted linear refused default_metadata [] name refl
      linear_is_put_back last_calls

Attempts-bounded_example :
    ((requeued_run refused 100 (some 9)).attempt_count ≡ 1)
    × ((requeued_run refused 100 (some 9)).attempt_limit ≡ stored_run.attempt_limit)
    × (1 < 2)
Attempts-bounded_example =
    Attempts-bounded stored_run 1 (requeued_run refused 100 (some 9)) refl (omega arith)
      (omega arith) put_back_once

abbrev graph_run : RunState
graph_run = record stored_run {
  dag_run_state = some (record { nodes = (1, pending_node (2 ∷ [])) ∷ (2, pending_node []) ∷ [] });
}

abbrev executed : ExecutionResult
executed = record { queued_task = queued_task; started_run_state = graph_run; execution = done }

node_succeeds : (resolve_dag_execution graph executed 2 []).0 ≡ ok (RunNextOutcome.requeued name)
unfolding resolve_dag_execution rack_ai.Tasks.Effects.◌>>=◌ rack_ai.Tasks.Effects.perform
    rack_ai.Tasks.Resolution.resolve_dag_success rack_ai.Tasks.Effects.return
    rack_ai.Domain.Dag.dag_mark_succeeded rack_ai.Domain.Dag.map_node rack_ai.Common.Map.lookup
    rack_ai.Domain.Dag.all_succeeded rack_ai.Common.Map.insert rack_ai.Common.Map.remove
    rack_ai.Common.Map.values pending_node rack_ai.Tasks.Effects.◌>>◌
node_succeeds = refl

resolve_dag_execution-DagResolved_example :
    DagResolved executed 2
      (RunNextOutcome.requeued name)
      (resolve_dag_execution graph executed 2 []).1
resolve_dag_execution-DagResolved_example =
    resolve_dag_execution-DagResolved graph executed 2 [] node_succeeds

-- The node without dependencies is selected, although it is listed last.
abbrev picked : SelectedTask
picked = record {
  queued_task = queued_task;
  run_state = graph_run;
  task_spec = graph_spec;
  active_node_id = some 2;
  placement = anywhere;
}

picks_node : (select_task graph []).0 ≡ ok (Selection.selected picked)
unfolding select_task rack_ai.Tasks.Effects.◌>>=◌ rack_ai.Tasks.Effects.perform
    rack_ai.Tasks.Selection.select_from rack_ai.Tasks.Effects.return rack_ai.Domain.Names.task_id
    rack_ai.Common.Text.trim rack_ai.Common.Text.trim_end_matches
    rack_ai.Common.Text.trim_start_matches rack_ai.Common.Text.is_whitespace
    rack_ai.Tasks.Selection.load_run_state rack_ai.Tasks.Selection.plan_task
    rack_ai.Tasks.Selection.plan_dag_task rack_ai.Tasks.Selection.ensure_dag_run_state
    rack_ai.Tasks.Specs.initial_dag_run rack_ai.Tasks.Specs.validate_dag
    rack_ai.Tasks.Specs.validate_nodes rack_ai.Tasks.Specs.validate_dependencies
    rack_ai.Common.Map.insert rack_ai.Common.Map.lookup rack_ai.Domain.Dag.collect_nodes
    rack_ai.Domain.Dag.is_ready_node rack_ai.Domain.Dag.new_dag_run pending_node
    rack_ai.Domain.Dag.ready_node_id_in_order rack_ai.Domain.Runs.meta_ready
    rack_ai.Domain.Runs.meta_waiting rack_ai.Tasks.Effects.proceed rack_ai.Tasks.Effects.◌>>◌
    rack_ai.Tasks.Selection.dag_node_placement rack_ai.Tasks.Selection.take_task
    rack_ai.Tasks.Selection.unless_blocked rack_ai.Tasks.Specs.find_dag_node
    rack_ai.Tasks.Specs.find_node rack_ai.Tasks.Specs.first_ready_node_id
picks_node = refl

select_task-Planned_example : Planned graph_spec graph_run (some 2)
select_task-Planned_example = select_task-Planned graph [] picks_node
