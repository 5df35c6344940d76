-- ===== src/Tasks/Silence.antt =====
-- Which calls the parts of a run make: a selection only selects, a resolution only settles.
use rack_ai.Common.{ℕ, true, List, [], ◌∷◌, Option, ◌≡◌, refl}
use rack_ai.Common.Text.{Text}
use rack_ai.Domain.Dag.{all_succeeded}
use rack_ai.Domain.Runs.{Placement, RunState, can_retry}
use rack_ai.Tasks.Specs.{Answer, TaskSpec, has_dag}
use rack_ai.Tasks.Effects.{Services, QueuedTask, Call, Calls, Log, perform}
use rack_ai.Tasks.Effects.Counting.{
  Kind, Silent, Quiet, is_selecting, is_settling, perform-Quiet, return-Quiet, >>=-Quiet, >>-Quiet,
  if-Quiet,
}
use rack_ai.Tasks.Selection.{
  Selection, select_task, select_from, select_listed, unless_blocked, take_task, plan_task,
  plan_dag_task, load_run_state, dag_node_placement,
}
use rack_ai.Tasks.Resolution.{
  RunNextOutcome, ExecutionResult, finish, put_back, resolve_dag_success, resolve_dag_failure,
  resolve_dag_execution, resolve_linear_execution,
}

module _ (services : Services) (p : Kind) (silent : Silent p is_selecting) where
  select :
      {A : Type 0} (c : Call) (answer : Log → Answer A)
      → is_selecting c ≡ true
      → Quiet p (perform c answer)
  select c answer s = perform-Quiet p c answer (λ b. silent c b s)

  load_run_state-Quiet : (id : Text) → Quiet p (load_run_state services id)
  unfolding load_run_state
  load_run_state-Quiet id = >>=-Quiet p (select (Call.find id) _ refl) (λ a. return-Quiet p _)

  plan_dag_task-Quiet :
      (run : RunState) (spec : TaskSpec) → Quiet p (plan_dag_task services run spec)
  unfolding plan_dag_task dag_node_placement
  plan_dag_task-Quiet run spec = >>=-Quiet p (return-Quiet p _) (λ planned.
      >>=-Quiet p (return-Quiet p _) (λ d. >>=-Quiet p (return-Quiet p _) (λ id.
        >>=-Quiet p (>>=-Quiet p (return-Quiet p _) (λ n. select (Call.resolve _) _ refl))
          (λ a. return-Quiet p _))))

  plan_task-Quiet : (run : RunState) (spec : TaskSpec) → Quiet p (plan_task services run spec)
  unfolding plan_task
  plan_task-Quiet run spec =
      if-Quiet p (has_dag spec) (plan_dag_task-Quiet run spec) (return-Quiet p _)

  take_task-Quiet :
      (task : QueuedTask) (spec : TaskSpec) (planned : RunState × Option ℕ × Placement)
      → Quiet p (take_task services task spec planned)
  unfolding take_task
  take_task-Quiet task spec (run, active, placement) =
      >>-Quiet p (select (Call.save _) _ refl)
        (>>=-Quiet p (select (Call.claim task) _ refl) (λ a. return-Quiet p _))

  unless_blocked-Quiet :
      (task : QueuedTask) (spec : TaskSpec) (planned : RunState × Option ℕ × Placement)
      {rest : Calls Selection}
      → Quiet p rest
      → (blocked : List ℕ) → Quiet p (unless_blocked services task spec planned rest blocked)
  unfolding unless_blocked
  unless_blocked-Quiet task spec planned q [] = take_task-Quiet task spec planned
  unless_blocked-Quiet task spec planned q (r ∷ rs) = >>-Quiet p (select (Call.save _) _ refl) q

  select_from-Quiet : (tasks : List QueuedTask) → Quiet p (select_from services tasks)
  unfolding select_from
  select_from-Quiet [] = return-Quiet p _
  select_from-Quiet (task ∷ tasks) = >>=-Quiet p (return-Quiet p _) (λ id.
      >>=-Quiet p (load_run_state-Quiet id) (λ run.
        >>=-Quiet p (select (Call.load task) _ refl) (λ spec.
          >>=-Quiet p (plan_task-Quiet run spec) (λ planned.
            >>=-Quiet p (select (Call.blocked _) _ refl) (λ blocked.
              unless_blocked-Quiet task spec planned (select_from-Quiet tasks) blocked)))))

  select_listed-Quiet : (tasks : List QueuedTask) → Quiet p (select_listed services tasks)
  select_listed-Quiet [] = return-Quiet p _
  select_listed-Quiet (task ∷ tasks) = select_from-Quiet (task ∷ tasks)

  pub select_task-Quiet : Quiet p (select_task services)
  unfolding select_task
  select_task-Quiet = >>=-Quiet p (select Call.list _ refl) select_listed-Quiet

module _ (services : Services) (p : Kind) (silent : Silent p is_settling) where
  settle :
      {A : Type 0} (c : Call) (answer : Log → Answer A)
      → is_settling c ≡ true
      → Quiet p (perform c answer)
  settle c answer s = perform-Quiet p c answer (λ b. silent c b s)

  finish-Quiet :
      (task : QueuedTask) (run : RunState) (outcome : RunNextOutcome)
      → Quiet p (finish services task run outcome)
  finish-Quiet task run outcome =
      >>-Quiet p (settle (Call.save run) _ refl)
        (>>-Quiet p (settle (Call.complete task) _ refl) (return-Quiet p _))

  put_back-Quiet : (task : QueuedTask) (run : RunState) → Quiet p (put_back services task run)
  put_back-Quiet task run =
      >>-Quiet p (settle (Call.save run) _ refl)
        (>>-Quiet p (settle (Call.requeue task) _ refl) (return-Quiet p _))

  pub resolve_linear_execution-Quiet :
      (r : ExecutionResult) → Quiet p (resolve_linear_execution services r)
  unfolding resolve_linear_execution
  resolve_linear_execution-Quiet r = >>=-Quiet p (settle Call.now _ refl) (λ at.
      if-Quiet p r.execution.success (finish-Quiet _ _ _)
        (if-Quiet p (can_retry r.started_run_state) (put_back-Quiet _ _) (finish-Quiet _ _ _)))

  pub resolve_dag_execution-Quiet :
      (r : ExecutionResult) (id : ℕ) → Quiet p (resolve_dag_execution services r id)
  unfolding resolve_dag_execution resolve_dag_success resolve_dag_failure
  resolve_dag_execution-Quiet r id = >>=-Quiet p (settle Call.now _ refl) (λ at.
      if-Quiet p r.execution.success
        (>>=-Quiet p (return-Quiet p _) (λ d.
          >>=-Quiet p (return-Quiet p _) (λ marked.
            if-Quiet p (all_succeeded marked) (finish-Quiet _ _ _) (put_back-Quiet _ _))))
        (>>=-Quiet p (return-Quiet p _) (λ d.
          if-Quiet p (can_retry r.started_run_state)
            (>>=-Quiet p (return-Quiet p _) (λ marked. put_back-Quiet _ _))
            (>>=-Quiet p (return-Quiet p _) (λ marked. finish-Quiet _ _ _)))))
