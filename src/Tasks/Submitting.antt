-- ===== src/Tasks/Submitting.antt =====
-- The submission of a task: crates/rack_ai_application/src/submit_task.rs. The specification is saved
-- before the run; each save is an argument.
use rack_ai.Common.{ℕ, Option, none, some, ok, ◌>>◌}
use rack_ai.Common.Text.{Text}
use rack_ai.Domain.Dag.{DagRunState}
use rack_ai.Domain.Runs.{
  RunState, RunStateDraft, queued_run, default_metadata, meta_submitted, with_dag_run_state,
  with_metadata,
}
use rack_ai.Tasks.Specs.{Answer}

pub record SubmitTaskRequest : Type 0 where
  pub spec_json : ℕ
  pub run_state : RunStateDraft
  pub dag_run_state : Option DagRunState
  pub submitted_at : ℕ
  pub source_spec : ℕ
  pub queue_path : ℕ

abbrev pub with_graph : Option DagRunState → RunState → RunState
with_graph none run = run
with_graph (some d) run = with_dag_run_state d run

abbrev pub submitted_run : SubmitTaskRequest → RunState
submitted_run request = with_graph request.dag_run_state (
    with_metadata
      (meta_submitted request.submitted_at request.source_spec request.queue_path default_metadata)
      (queued_run request.run_state))

unfoldable pub submit_task :
    (Text → ℕ → Answer (Unit {0}))
    → (RunState → Answer (Unit {0}))
    → SubmitTaskRequest
    → Answer RunState
submit_task save_spec save_run request =
    let run = submitted_run request in
    do save_spec run.task_id request.spec_json; save_run run; ok run
