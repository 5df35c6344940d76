-- ===== src/Tasks/Results.antt =====
-- What a run's answer says of what was stored.
pub mod Linear
pub mod Graph
use rack_ai.Common.{
  ℕ, Bool, true, false, not, ◌&&◌, List, [], ◌∷◌, Option, none, some, ◌≡◌, refl, Outcome, ok, err,
  ok_or, if◌then◌else◌, arith, Bool-cases, inl, inr, ltb, ◌<◌, ◌≤◌, ◌+◌, ◌^◌, Option-cases,
}
use rack_ai.Common.Text.{Text}
use rack_ai.Domain.Dag.{
  DagRunState, all_succeeded, dag_mark_succeeded, dag_mark_pending, dag_mark_failed,
}
use rack_ai.Domain.Runs.{RunState, RunStatus, succeed_run, queue_run, fail_run, can_retry}
use rack_ai.Domain.Faults.{Fault}
use rack_ai.Tasks.Specs.{Answer, valued}
use rack_ai.Tasks.Effects.{
  Services, QueuedTask, Call, Calls, Log, perform, return, proceed, ◌>>=◌, ◌>>◌, succeeded,
}
use rack_ai.Tasks.Resolution.{
  RunNextOutcome, ExecutionResult, finish, put_back, resolve_linear_execution,
  resolve_dag_execution, resolve_dag_success, resolve_dag_failure, completed_run, requeued_run,
  failed_run, error_of,
}

-- The last two calls stored this run and disposed of the task in this way.
abbrev pub Stored : Log → RunState → Call → Type 0
Stored log run disposal = (rest : Log) × (log ≡ (disposal, true) ∷ (Call.save run, true) ∷ rest)

module _ (services : Services) where
  pub finish-Stored :
      (task : QueuedTask) (run : RunState) (outcome : RunNextOutcome) (log : Log)
      {answer : RunNextOutcome}
      → (finish services task run outcome log).0 ≡ ok answer
      → (answer ≡ outcome)
        × Stored (finish services task run outcome log).1 run (Call.complete task)
  unfolding ◌>>◌ ◌>>=◌ proceed perform return
  finish-Stored task run outcome log h = (ground arith, (log, ground arith))

  pub put_back-Stored :
      (task : QueuedTask) (run : RunState) (log : Log) {answer : RunNextOutcome}
      → (put_back services task run log).0 ≡ ok answer
      → (answer ≡ RunNextOutcome.requeued task.task_id)
        × Stored (put_back services task run log).1 run (Call.requeue task)
  unfolding ◌>>◌ ◌>>=◌ proceed perform return
  put_back-Stored task run log h = (ground arith, (log, ground arith))

proceed-eq-ok :
    {A B : Type 0} (answer : _) (next : A → Calls B) (log : Log) {b : B}
    → (proceed answer next log).0 ≡ ok b
    → (a : A) × (answer ≡ ok a) × (proceed answer next log ≡ next a log)
unfolding proceed
proceed-eq-ok (ok a) next log h = (a, refl, refl)
proceed-eq-ok (err e) next log h = cc

-- A successful computation is the rest of it after its first result.
pub bind-eq-ok :
    {A B : Type 0} (first : Calls A) (next : A → Calls B) (log : Log) {b : B}
    → ((first >>= next) log).0 ≡ ok b
    → (a : A) × ((first log).0 ≡ ok a) × ((first >>= next) log ≡ next a (first log).1)
unfolding ◌>>=◌
bind-eq-ok first next log h = proceed-eq-ok (first log).0 next (first log).1 h

pub then-eq-ok :
    {A B : Type 0} (first : Calls A) (second : Calls B) (log : Log) {b : B}
    → ((first >> second) log).0 ≡ ok b
    → (first >> second) log ≡ second (first log).1
unfolding ◌>>◌
then-eq-ok first second log h = (bind-eq-ok first (λ a. second) log h).2

module _ {A B : Type 0} (answer : Answer A) (next : A → Calls B) (log : Log) {b : B} where
  -- The same where the first computation calls nothing.
  pub return-eq-ok :
      ((return answer >>= next) log).0 ≡ ok b
      → (a : A) × (answer ≡ ok a) × ((return answer >>= next) log ≡ next a log)
  unfolding ◌>>=◌ return
  return-eq-ok h = proceed-eq-ok answer next log h

pub valued-eq-ok : {A : Type 0} (o : Outcome Fault A) {a : A} → valued o ≡ ok a → o ≡ ok a
valued-eq-ok (ok a) h = cc
valued-eq-ok (err e) h = cc

module _ {A : Type 0} (G : Log → Type 0) (log : Log) {answer : A} where
  -- A successful branch of a test.
  pub if-eq-ok :
      (b : Bool) (x y : Calls A)
      → ((if b then x else y) log).0 ≡ ok answer
      → (b ≡ true → (x log).0 ≡ ok answer → G (x log).1)
      → (b ≡ false → (y log).0 ≡ ok answer → G (y log).1)
      → G ((if b then x else y) log).1
  if-eq-ok true x y h f g = f refl h
  if-eq-ok false x y h f g = g refl h
