-- ===== src/Tasks/Selection.antt =====
-- The selection of a task: crates/rack_ai_application/src/run_next_task/planning.rs.
use rack_ai.Common.{ℕ, List, [], ◌∷◌, Option, none, some, ok, err, ok_or, if◌then◌else◌}
use rack_ai.Common.Text.{Text}
use rack_ai.Domain.Dag.{DagRunState}
use rack_ai.Domain.Names.{task_id}
use rack_ai.Domain.Runs.{
  Placement, RunState, with_dag_run_state, with_metadata, meta_waiting, meta_ready,
}
use rack_ai.Tasks.Specs.{
  TaskError, Answer, valued, TaskSpec, has_dag, spec_dag_run, first_ready_node_id, find_dag_node,
}
use rack_ai.Tasks.Effects.{Services, QueuedTask, Call, Calls, perform, return, ◌>>=◌, ◌>>◌}

pub record SelectedTask : Type 0 where
  pub queued_task : QueuedTask
  pub run_state : RunState
  pub task_spec : TaskSpec
  pub active_node_id : Option ℕ
  pub placement : Placement

pub data Selection : Type 0 where
  none_queued none_admissible : Selection
  selected : SelectedTask → Selection

unfoldable pub load_run_state : Services → Text → Calls RunState
load_run_state services id = do
  found ← perform (Call.find id) (services.find_run id)
  return (ok_or found TaskError.run_state_missing)

abbrev pub with_initial : RunState → Answer (Option DagRunState) → Answer RunState
with_initial run (ok (some d)) = ok (with_dag_run_state d run)
with_initial run (ok none) = err TaskError.initial_dag_missing
with_initial run (err e) = err e

unfoldable pub ensure_dag_run_state : RunState → TaskSpec → Answer RunState
ensure_dag_run_state run spec = elim run.dag_run_state [
  | some d ↦ ok run
  | none ↦ with_initial run (spec_dag_run spec)
]

unfoldable pub dag_node_placement : Services → TaskSpec → ℕ → Calls Placement
dag_node_placement services spec id = do
  n ← return (find_dag_node spec id)
  perform (Call.resolve n.worker) (services.resolve_worker n.worker)

unfoldable pub plan_dag_task :
    Services → RunState → TaskSpec → Calls (RunState × Option ℕ × Placement)
plan_dag_task services run spec = do
  planned ← return (ensure_dag_run_state run spec)
  d ← return (ok_or planned.dag_run_state TaskError.dag_state_missing)
  id ← return (ok_or (first_ready_node_id spec d) TaskError.no_ready_node)
  placement ← dag_node_placement services spec id
  return (ok (planned, some id, placement))

unfoldable pub plan_task : Services → RunState → TaskSpec → Calls (RunState × Option ℕ × Placement)
plan_task services run spec =
    if has_dag spec
    then plan_dag_task services run spec
    else return (ok (run, none, spec.placement))

-- The end of the loop's body for a task whose resources are free.
unfoldable pub take_task :
    Services → QueuedTask → TaskSpec → RunState × Option ℕ × Placement → Calls Selection
take_task services task spec (run, node, placement) =
    let waiting = with_metadata (meta_ready task.spec_path run.metadata) run in
    do
      perform (Call.save waiting) (services.save_run waiting)
      claimed ← perform (Call.claim task) (services.claim_task task)
      return (
          ok (
            Selection.selected (record {
              queued_task = claimed;
              run_state = run;
              task_spec = spec;
              active_node_id = node;
              placement = placement;
            })))

-- What is stored of a task whose resources are held.
abbrev pub waiting_run : QueuedTask → List ℕ → RunState → RunState
waiting_run task blocked run = with_metadata (meta_waiting task.spec_path blocked run.metadata) run

-- A task whose resources are held waits, and the loop goes on with the rest.
unfoldable pub unless_blocked :
    Services
    → QueuedTask
    → TaskSpec
    → RunState × Option ℕ × Placement
    → Calls Selection
    → List ℕ
    → Calls Selection
unless_blocked services task spec planned rest [] = take_task services task spec planned
unless_blocked services task spec planned rest (resource ∷ resources) =
    let waiting = waiting_run task (resource ∷ resources) planned.0 in
    perform (Call.save waiting) (services.save_run waiting) >> rest

-- The loop over the queued tasks.
unfoldable pub select_from : Services → List QueuedTask → Calls Selection
select_from services [] = return (ok Selection.none_admissible)
select_from services (task ∷ tasks) =
    let rest = select_from services tasks in
    do
      id ← return (valued (task_id task.task_id))
      run ← load_run_state services id
      spec ← perform (Call.load task) (services.load_spec task)
      planned ← plan_task services run spec
      blocked ← perform (Call.blocked planned.2) (services.blocked_resources planned.2)
      unless_blocked services task spec planned rest blocked

abbrev pub select_listed : Services → List QueuedTask → Calls Selection
select_listed services [] = return (ok Selection.none_queued)
select_listed services (task ∷ tasks) = select_from services (task ∷ tasks)

unfoldable pub select_task : Services → Calls Selection
select_task services = do
  tasks ← perform Call.list services.list_tasks
  select_listed services tasks
