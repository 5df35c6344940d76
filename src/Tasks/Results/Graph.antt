-- ===== src/Tasks/Results/Graph.antt =====
-- The resolution of a task with a graph of nodes.
use rack_ai.Common.{ℕ, true, false, none, some, ◌≡◌, ok, ok_or, if◌then◌else◌, ok_or-eq-ok}
use rack_ai.Domain.Dag.{
  DagRunState, all_succeeded, dag_mark_succeeded, dag_mark_pending, dag_mark_failed,
}
use rack_ai.Domain.Runs.{with_dag_run_state, can_retry}
use rack_ai.Tasks.Specs.{valued}
use rack_ai.Tasks.Effects.{Services, Call, Calls, Log, perform}
use rack_ai.Tasks.Results.{
  Stored, finish-Stored, put_back-Stored, bind-eq-ok, return-eq-ok, valued-eq-ok, if-eq-ok,
}
use rack_ai.Tasks.Resolution.{
  RunNextOutcome, ExecutionResult, resolve_dag_execution, resolve_dag_success, resolve_dag_failure,
  completed_run, requeued_run, failed_run, error_of,
}

-- The four ends of the execution of a node: the task completes, it goes back for its next node, it
-- goes back for another attempt, or it fails.
pub data DagResolved (r : ExecutionResult) (id : ℕ) (answer : RunNextOutcome) (after : Log)
    : Type 0 where
  completes :
      (at : ℕ) (d marked : DagRunState)
      → r.execution.success ≡ true
      → r.started_run_state.dag_run_state ≡ some d
      → dag_mark_succeeded id at r.execution.result_path d ≡ ok marked
      → all_succeeded marked ≡ true
      → answer ≡ RunNextOutcome.succeeded r.queued_task.task_id
      → Stored after (with_dag_run_state marked (completed_run r at)) (Call.complete r.queued_task)
      → DagResolved r id answer after
  continues :
      (at : ℕ) (d marked : DagRunState)
      → r.execution.success ≡ true
      → r.started_run_state.dag_run_state ≡ some d
      → dag_mark_succeeded id at r.execution.result_path d ≡ ok marked
      → all_succeeded marked ≡ false
      → answer ≡ RunNextOutcome.requeued r.queued_task.task_id
      → Stored after
          (with_dag_run_state marked (requeued_run r at none))
          (Call.requeue r.queued_task)
      → DagResolved r id answer after
  retries :
      (at : ℕ) (d marked : DagRunState)
      → r.execution.success ≡ false
      → r.started_run_state.dag_run_state ≡ some d
      → dag_mark_pending id (error_of r.execution) d ≡ ok marked
      → can_retry r.started_run_state ≡ true
      → answer ≡ RunNextOutcome.requeued r.queued_task.task_id
      → Stored after
          (with_dag_run_state marked (requeued_run r at (some (error_of r.execution))))
          (Call.requeue r.queued_task)
      → DagResolved r id answer after
  gives_up :
      (at : ℕ) (d marked : DagRunState)
      → r.execution.success ≡ false
      → r.started_run_state.dag_run_state ≡ some d
      → dag_mark_failed id at r.execution.result_path (error_of r.execution) d ≡ ok marked
      → can_retry r.started_run_state ≡ false
      → answer ≡ RunNextOutcome.failed r.queued_task.task_id
      → Stored after (with_dag_run_state marked (failed_run r at)) (Call.complete r.queued_task)
      → DagResolved r id answer after

-- What follows the clock.
abbrev dag_branch : Services → ExecutionResult → ℕ → ℕ → Calls RunNextOutcome
dag_branch services r id at =
    if r.execution.success
    then resolve_dag_success services r id at
    else resolve_dag_failure services r id at

module _ (services : Services) (r : ExecutionResult) (id : ℕ) {answer : RunNextOutcome} where
  success_resolved :
      (at : ℕ) (log : Log)
      → r.execution.success ≡ true
      → (resolve_dag_success services r id at log).0 ≡ ok answer
      → DagResolved r id answer (resolve_dag_success services r id at log).1
  unfolding resolve_dag_success
  success_resolved at log e h =
      let d = return-eq-ok (ok_or r.started_run_state.dag_run_state _) _ log h in
      rw d.2 (
        let m =
          return-eq-ok (valued (dag_mark_succeeded id at r.execution.result_path d.0)) _ log
            (rw d.2 at h) in
        rw m.2 (
          if-eq-ok (DagResolved r id answer) log (all_succeeded m.0) _ _ (rw m.2 at (rw d.2 at h))
            (λ c k.
              let p = finish-Stored services _ _ _ log k in
              completes at d.0 m.0 e (ok_or-eq-ok _ _ d.1) (valued-eq-ok _ m.1) c p.0 p.1)
            (λ c k.
              let p = put_back-Stored services _ _ log k in
              continues at d.0 m.0 e (ok_or-eq-ok _ _ d.1) (valued-eq-ok _ m.1) c p.0 p.1)))

  failure_resolved :
      (at : ℕ) (log : Log)
      → r.execution.success ≡ false
      → (resolve_dag_failure services r id at log).0 ≡ ok answer
      → DagResolved r id answer (resolve_dag_failure services r id at log).1
  unfolding resolve_dag_failure
  failure_resolved at log e h =
      let d = return-eq-ok (ok_or r.started_run_state.dag_run_state _) _ log h in
      rw d.2 (
        if-eq-ok (DagResolved r id answer) log (can_retry r.started_run_state) _ _ (rw d.2 at h)
          (λ c k.
            let m =
              return-eq-ok (valued (dag_mark_pending id (error_of r.execution) d.0)) _ log k in
            rw m.2 (
              let p = put_back-Stored services _ _ log (rw m.2 at k) in
              retries at d.0 m.0 e (ok_or-eq-ok _ _ d.1) (valued-eq-ok _ m.1) c p.0 p.1))
          (λ c k.
            let m =
              return-eq-ok
                (valued (dag_mark_failed id at r.execution.result_path (error_of r.execution) d.0))
                _ log k in
            rw m.2 (
              let p = finish-Stored services _ _ _ log (rw m.2 at k) in
              gives_up at d.0 m.0 e (ok_or-eq-ok _ _ d.1) (valued-eq-ok _ m.1) c p.0 p.1)))

  -- Each answer of the resolution of a node agrees with what was stored last: the task completes
  -- exactly when every node has succeeded, goes back to the queue for its next node or for another
  -- attempt while some are left, and fails otherwise.
  pub resolve_dag_execution-DagResolved :
      (log : Log)
      → (resolve_dag_execution services r id log).0 ≡ ok answer
      → DagResolved r id answer (resolve_dag_execution services r id log).1
  unfolding resolve_dag_execution
  resolve_dag_execution-DagResolved log h =
      let b = bind-eq-ok (perform Call.now services.now_text) (dag_branch services r id) log h in
      rw b.2 (
        if-eq-ok (DagResolved r id answer) (perform Call.now services.now_text log).1
          r.execution.success _ _ (rw b.2 at h) (λ e k. success_resolved b.0 _ e k)
          (λ e k. failure_resolved b.0 _ e k))
