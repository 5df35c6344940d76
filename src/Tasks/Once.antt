-- ===== src/Tasks/Once.antt =====
-- A run of the next task executes at most one task, and disposes of it at most once.
use rack_ai.Common.{ℕ, true, false, refl, count_if, ◌+◌, ◌≤◌, arith}
use rack_ai.Domain.Runs.{RunState, can_retry}
use rack_ai.Domain.Dag.{all_succeeded}
use rack_ai.Tasks.Effects.{Services, QueuedTask, TaskExecutionRequest, Call, Log}
use rack_ai.Tasks.Effects.Counting.{
  Kind, Silent, Quiet, Within, is_selecting, is_settling, perform-Quiet, return-Quiet, >>=-Within,
  >>-Within, Within->>=, Within->>, perform-Within, if-Within,
}
use rack_ai.Tasks.Resolution.{
  RunNextOutcome, ExecutionResult, finish, put_back, resolve_dag_execution, resolve_dag_success,
  resolve_dag_failure, resolve_linear_execution,
}
use rack_ai.Tasks.Attempt.{invoke}
use rack_ai.Tasks.Running.{execute}
use rack_ai.Tasks.Bounds.{execute-Within}
use rack_ai.Tasks.Silence.{resolve_linear_execution-Quiet, resolve_dag_execution-Quiet}

abbrev pub is_execution : Kind
is_execution (Call.execute request, b) = true
is_execution _ = false

-- A claimed task leaves the queue for good or goes back to it.
abbrev pub is_disposal : Kind
is_disposal (Call.complete task, b) = true
is_disposal (Call.requeue task, b) = true
is_disposal _ = false

execution-selecting : Silent is_execution is_selecting
execution-selecting (Call.execute r) b h = absurd (ground arith)
execution-selecting _ b h = refl

execution-settling : Silent is_execution is_settling
execution-settling (Call.execute r) b h = absurd (ground arith)
execution-settling _ b h = refl

disposal-selecting : Silent is_disposal is_selecting
disposal-selecting (Call.complete r) b h = absurd (ground arith)
disposal-selecting (Call.requeue r) b h = absurd (ground arith)
disposal-selecting _ b h = refl

invoke-Within :
    (services : Services) (p : Kind) (request : TaskExecutionRequest)
    → Within p 1 (invoke services request)
unfolding invoke
invoke-Within services p request = record { bound = λ log. ground arith }

invoke-Quiet :
    (services : Services) (request : TaskExecutionRequest)
    → Quiet is_disposal (invoke services request)
unfolding invoke
invoke-Quiet services request = record { same = λ log. refl }

module _ (services : Services) where
  finish-Within :
      (task : QueuedTask) (run : RunState) (outcome : RunNextOutcome)
      → Within is_disposal 1 (finish services task run outcome)
  finish-Within task run outcome =
      >>-Within is_disposal (perform-Quiet is_disposal _ _ (λ b. refl))
        (Within->> is_disposal (perform-Within is_disposal _ _) (return-Quiet is_disposal _))

  put_back-Within :
      (task : QueuedTask) (run : RunState) → Within is_disposal 1 (put_back services task run)
  put_back-Within task run =
      >>-Within is_disposal (perform-Quiet is_disposal _ _ (λ b. refl))
        (Within->> is_disposal (perform-Within is_disposal _ _) (return-Quiet is_disposal _))

  resolve_linear_execution-Within :
      (r : ExecutionResult) → Within is_disposal 1 (resolve_linear_execution services r)
  unfolding resolve_linear_execution
  resolve_linear_execution-Within r =
      >>=-Within is_disposal (perform-Quiet is_disposal _ _ (λ b. refl)) (λ at.
        if-Within is_disposal r.execution.success (finish-Within _ _ _) (
          if-Within is_disposal (can_retry r.started_run_state) (put_back-Within _ _)
            (finish-Within _ _ _)))

  resolve_dag_execution-Within :
      (r : ExecutionResult) (id : ℕ) → Within is_disposal 1 (resolve_dag_execution services r id)
  unfolding resolve_dag_execution resolve_dag_success resolve_dag_failure
  resolve_dag_execution-Within r id =
      >>=-Within is_disposal (perform-Quiet is_disposal _ _ (λ b. refl)) (λ at.
        if-Within is_disposal r.execution.success
          (>>=-Within is_disposal (return-Quiet is_disposal _) (λ d.
            >>=-Within is_disposal (return-Quiet is_disposal _) (λ marked.
              if-Within is_disposal (all_succeeded marked) (finish-Within _ _ _)
                (put_back-Within _ _))))
          (>>=-Within is_disposal (return-Quiet is_disposal _) (λ d.
            if-Within is_disposal (can_retry r.started_run_state)
              (>>=-Within is_disposal (return-Quiet is_disposal _) (λ marked. put_back-Within _ _))
              (>>=-Within is_disposal (return-Quiet is_disposal _)
                (λ marked. finish-Within _ _ _)))))

  -- Whatever the services answer, a run of the next task calls the executor at most once.
  pub execute-once :
      (log : Log) → count_if is_execution (execute services log).1 ≤ count_if is_execution log + 1
  execute-once =
      (execute-Within services is_execution execution-selecting (λ r b. refl) (λ r b. refl)
        (λ input run request.
          Within->>= is_execution (invoke-Within services is_execution request)
            (λ e. resolve_linear_execution-Quiet services is_execution execution-settling _))
        (λ input run id request.
          Within->>= is_execution (invoke-Within services is_execution request)
            (λ e. resolve_dag_execution-Quiet services is_execution execution-settling _ id))).bound

  -- Whatever the services answer, a run of the next task takes a task off the queue or puts it back
  -- at most once, all its errors included: after an execution that was stored in part, the task is
  -- not put back a second time.
  pub execute-disposes_once :
      (log : Log) → count_if is_disposal (execute services log).1 ≤ count_if is_disposal log + 1
  execute-disposes_once =
      (execute-Within services is_disposal disposal-selecting (λ r b. refl) (λ r b. refl)
        (λ input run request.
          >>=-Within is_disposal (invoke-Quiet services request)
            (λ e. resolve_linear_execution-Within _))
        (λ input run id request.
          >>=-Within is_disposal (invoke-Quiet services request)
            (λ e. resolve_dag_execution-Within _ id))).bound
