-- ===== src/Tasks/Effects.antt =====
-- The services of run_next_task.rs (`RunNextTaskDependencies`): what each call answers may depend on
-- every call before it, so that an answer stands for any behaviour of the queue, the leases, the
-- stored runs and the executor. The log has the newest call first, with its success.
pub mod Counting
use rack_ai.Common.{
  ℕ, Bool, true, false, List, [], ◌∷◌, Option, none, some, Outcome, ok, err, if◌then◌else◌,
}
use rack_ai.Common.Text.{Text}
use rack_ai.Domain.Runs.{Placement, RunState}
use rack_ai.Tasks.Specs.{TaskError, Answer, TaskSpec, ExecutionSpec}

pub record QueuedTask : Type 0 where
  pub task_id : Text
  pub spec_path : ℕ

pub record TaskExecution : Type 0 where
  pub success : Bool
  pub result_path : Option ℕ
  pub last_error : Option ℕ

-- `TaskExecution::failure`.
abbrev pub failed_execution : ℕ → Option ℕ → TaskExecution
failed_execution last_error result_path = record {
  success = false;
  result_path = result_path;
  last_error = some last_error;
}

pub record TaskExecutionRequest : Type 0 where
  pub task_id : Text
  pub source_spec_path : ℕ
  pub execution_spec_json : Option ℕ

pub record LeaseHandle : Type 0 where
  pub owner : ℕ
  pub generation : ℕ
  pub paths : List (ℕ × ℕ)

pub record LeaseRequest : Type 0 where
  pub task_id : Text
  pub placement : Placement
  pub acquired_at : ℕ

pub data Call : Type 0 where
  now list : Call
  find : Text → Call
  load claim complete requeue : QueuedTask → Call
  resolve : ℕ → Call
  blocked : Placement → Call
  save : RunState → Call
  acquire : LeaseRequest → Call
  release : LeaseHandle → Call
  execute : TaskExecutionRequest → Call

abbrev pub Log : Type 0
Log = List (Call × Bool)

pub record Services : Type 0 where
  pub now_text : Log → Answer ℕ
  pub list_tasks : Log → Answer (List QueuedTask)
  pub find_run : Text → Log → Answer (Option RunState)
  pub load_spec : QueuedTask → Log → Answer TaskSpec
  pub claim_task : QueuedTask → Log → Answer QueuedTask
  pub complete_task : QueuedTask → Log → Answer (Unit {0})
  pub requeue_task : QueuedTask → Log → Answer QueuedTask
  pub resolve_worker : ℕ → Log → Answer Placement
  pub blocked_resources : Placement → Log → Answer (List ℕ)
  pub save_run : RunState → Log → Answer (Unit {0})
  pub acquire_lease : LeaseRequest → Log → Answer LeaseHandle
  pub release_lease : LeaseHandle → Log → Answer (Unit {0})
  -- The executor's error is a message.
  pub execute_task : TaskExecutionRequest → Log → Outcome ℕ TaskExecution
  pub to_json : ExecutionSpec → Answer ℕ

-- A computation that calls services.
abbrev pub Calls : Type 0 → Type 0
Calls A = Log → Answer A × Log

abbrev pub succeeded : {E A : Type 0} → Outcome E A → Bool
succeeded (ok a) = true
succeeded (err e) = false

unfoldable pub perform : {A : Type 0} → Call → (Log → Answer A) → Calls A
perform call answer log = (answer log, (call, succeeded (answer log)) ∷ log)

unfoldable pub return : {A : Type 0} → Answer A → Calls A
return answer log = (answer, log)

unfoldable pub proceed : {A B : Type 0} → Answer A → (A → Calls B) → Calls B
proceed (ok a) next log = next a log
proceed (err e) next log = (err e, log)

infixl 5 ◌>>=◌ ◌>>◌
unfoldable pub ◌>>=◌ : {A B : Type 0} → Calls A → (A → Calls B) → Calls B
unfolding proceed
◌>>=◌ first next log = let r = first log in proceed r.0 next r.1

unfoldable pub ◌>>◌ : {A B : Type 0} → Calls A → Calls B → Calls B
unfolding ◌>>=◌
first >> second = first >>= λ _. second

-- The result of a computation, whose error does not end what calls it.
unfoldable pub attempt_calls : {A : Type 0} → Calls A → Calls (Answer A)
attempt_calls first log = let r = first log in (ok r.0, r.1)
