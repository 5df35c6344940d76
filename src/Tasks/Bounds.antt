-- ===== src/Tasks/Bounds.antt =====
-- A bound on a kind of calls over a whole run, from a bound on an execution and its resolution.
use rack_ai.Common.{
  ℕ, Bool, true, false, ◌≡◌, refl, ok, err, if◌then◌else◌, count_if, ◌+◌, ◌≤◌, arith,
}
use rack_ai.Domain.Runs.{RunState}
use rack_ai.Tasks.Specs.{Answer, has_dag}
use rack_ai.Tasks.Effects.{Services, TaskExecutionRequest, LeaseHandle, Call, Log, perform, ◌>>=◌}
use rack_ai.Tasks.Effects.Counting.{
  Kind, Silent, Quiet, Within, is_selecting, perform-Quiet, return-Quiet, >>=-Quiet, >>-Quiet,
  >>=-Within, Within->>=, perform-Within, Quiet-Within, attempt_calls-Quiet,
}
use rack_ai.Tasks.Selection.{SelectedTask, Selection}
use rack_ai.Tasks.Resolution.{RunNextOutcome, resolve_dag_execution, resolve_linear_execution}
use rack_ai.Tasks.Attempt.{
  AttemptInput, Attempted, prepare_dag, prepare_linear, invoke, run_dag, run_linear,
  execute_dag_task, execute_linear_task, result_of,
}
use rack_ai.Tasks.Running.{
  acquire_for, restore_run, restored, conclude, run_selected, with_leases, run_selection, execute,
}
use rack_ai.Tasks.Silence.{select_task-Quiet}

-- The bound of an attempt: what it adds, if the executor was invoked.
abbrev pub Bounded : Kind → Log → Attempted → Type 0
Bounded p log (result, was_invoked, after) =
    count_if p after ≤ count_if p log + (if was_invoked then 1 else 0)

module _ (services : Services) (p : Kind) (silent : Silent p is_selecting)
    (no_acquire : (r : _) (b : Bool) → p (Call.acquire r, b) ≡ false)
    (no_release : (r : LeaseHandle) (b : Bool) → p (Call.release r, b) ≡ false)
    (linear : (input : AttemptInput) (run : RunState) (request : TaskExecutionRequest)
      → Within p 1 (
          invoke services request >>= λ e.
          resolve_linear_execution services (result_of input run e)))
    (dag : (input : AttemptInput) (run : RunState) (id : ℕ) (request : TaskExecutionRequest)
      → Within p 1 (
          invoke services request >>= λ e.
          resolve_dag_execution services (result_of input run e) id)) where
  pub prepare_linear-Quiet : (input : AttemptInput) → Quiet p (prepare_linear services input)
  unfolding prepare_linear
  prepare_linear-Quiet input =
      >>-Quiet p (perform-Quiet p _ _ (λ b. silent (Call.save _) b refl)) (return-Quiet p _)

  pub prepare_dag-Quiet : (input : AttemptInput) → Quiet p (prepare_dag services input)
  unfolding prepare_dag
  prepare_dag-Quiet input = >>=-Quiet p (return-Quiet p _) (λ id.
      >>=-Quiet p (return-Quiet p _) (λ d. >>=-Quiet p (return-Quiet p _) (λ marked.
        >>-Quiet p (perform-Quiet p _ _ (λ b. silent (Call.save _) b refl)) (
          >>=-Quiet p (return-Quiet p _)
            (λ execution. >>=-Quiet p (return-Quiet p _) (λ json. return-Quiet p _))))))

  run_linear-Bounded :
      (input : AttemptInput) (log : Log) (prepared : Answer (RunState × TaskExecutionRequest) × Log)
      → count_if p prepared.1 ≡ count_if p log
      → Bounded p log (run_linear services input prepared)
  unfolding run_linear
  run_linear-Bounded input log (err e, after) h = omega arith
  run_linear-Bounded input log (ok (run, request), after) h =
      omega (arith, (linear input run request).bound after, h)

  run_dag-Bounded :
      (input : AttemptInput) (log : Log)
      (prepared : Answer (RunState × ℕ × TaskExecutionRequest) × Log)
      → count_if p prepared.1 ≡ count_if p log
      → Bounded p log (run_dag services input prepared)
  unfolding run_dag
  run_dag-Bounded input log (err e, after) h = omega arith
  run_dag-Bounded input log (ok (run, id, request), after) h =
      omega (arith, (dag input run id request).bound after, h)

  attempt-Bounded :
      (input : AttemptInput) (log : Log) (b : Bool)
      → Bounded p log (
          if b then execute_dag_task services input log else execute_linear_task services input log)
  unfolding execute_dag_task execute_linear_task
  attempt-Bounded input log true = run_dag-Bounded input log _ ((prepare_dag-Quiet input).same log)
  attempt-Bounded input log false =
      run_linear-Bounded input log _ ((prepare_linear-Quiet input).same log)

  restore_run-Within : (s : SelectedTask) → Within p 1 (restore_run services s)
  unfolding restore_run
  restore_run-Within s = Within->>= p (perform-Within p _ _) (λ queued.
      >>=-Quiet p (perform-Quiet p _ _ (λ b. silent Call.now b refl))
        (λ at. perform-Quiet p _ _ (λ b. silent (Call.save _) b refl)))

  restored-Within :
      (s : SelectedTask) (result : Answer RunNextOutcome) (was_invoked : Bool)
      → Within p (if was_invoked then 0 else 1) (restored services s result was_invoked)
  restored-Within s (ok outcome) was_invoked = Quiet-Within p (return-Quiet p _)
  restored-Within s (err e) true = Quiet-Within p (return-Quiet p _)
  restored-Within s (err e) false = restore_run-Within s

  conclude-bound :
      (s : SelectedTask) (handle : LeaseHandle) (log : Log) (tried : Attempted)
      → Bounded p log tried
      → count_if p (conclude services s handle tried).1 ≤ count_if p log + 1
  unfolding conclude
  conclude-bound s handle log (result, was_invoked, after) h =
      let released =
        perform-Quiet p (Call.release handle) (services.release_lease handle) (no_release handle) in
      let end = Within->>= p (restored-Within s result was_invoked) (λ u.
        >>=-Quiet p
          (return-Quiet p (perform (Call.release handle) (services.release_lease handle) after).0)
          (λ v. return-Quiet p result)) in
      ground (
        arith,
        end.bound (perform (Call.release handle) (services.release_lease handle) after).1,
        released.same after,
      )

  run_selected-Within :
      (s : SelectedTask) (acquired : ℕ × LeaseHandle)
      → Within p 1 (run_selected services s acquired)
  unfolding run_selected
  run_selected-Within s (started, handle) = record {
    bound = λ log. conclude-bound s handle log _ (attempt-Bounded _ log (has_dag s.task_spec));
  }

  with_leases-Within :
      (s : SelectedTask) (acquired : Answer (ℕ × LeaseHandle))
      → Within p 1 (with_leases services s acquired)
  unfolding with_leases
  with_leases-Within s (ok acquired) = run_selected-Within s acquired
  with_leases-Within s (err e) = Within->>= p (perform-Within p _ _) (λ task. return-Quiet p _)

  pub acquire_for-Quiet : (s : SelectedTask) → Quiet p (acquire_for services s)
  unfolding acquire_for
  acquire_for-Quiet s =
      >>=-Quiet p (perform-Quiet p _ _ (λ b. silent Call.now b refl))
        (λ started. >>=-Quiet p (perform-Quiet p _ _ (no_acquire _)) (λ handle. return-Quiet p _))

  run_selection-Within : (selection : Selection) → Within p 1 (run_selection services selection)
  unfolding run_selection
  run_selection-Within Selection.none_queued = Quiet-Within p (return-Quiet p _)
  run_selection-Within Selection.none_admissible = Quiet-Within p (return-Quiet p _)
  run_selection-Within (Selection.selected s) =
      >>=-Within p (attempt_calls-Quiet p (acquire_for-Quiet s))
        (λ acquired. with_leases-Within s acquired)

  pub execute-Within : Within p 1 (execute services)
  unfolding execute
  execute-Within = >>=-Within p (select_task-Quiet services p silent) run_selection-Within
