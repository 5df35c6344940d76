-- ===== src/Domain/Runs.antt =====
-- The state of a task's run: run_status.rs, attempt_count.rs, attempt_limit.rs, timeout_seconds.rs,
-- placement.rs, run_metadata.rs and run_state.rs of crates/rack_ai_domain/src. Times, paths, messages
-- and the identifiers of workers and resources are numbers.
use rack_ai.Common.{
  ℕ, Bool, true, false, List, [], ◌+◌, ◌^◌, ◌%◌, Option, none, some, ◌==◌, nat_eq, ltb, Outcome, ok,
  ◌>>◌, refuse_if, nat_beq, Eq, ◌≡◌, ◌↔◌, arith,
}
use rack_ai.Common.Text.{Text}
use rack_ai.Domain.Faults.{Fault}
use rack_ai.Domain.Dag.{DagRunState}

pub data RunStatus : Type 0 where
  queued running succeeded failed timed_out blocked : RunStatus

abbrev run_status_rank : RunStatus → ℕ
run_status_rank RunStatus.queued = 0
run_status_rank RunStatus.running = 1
run_status_rank RunStatus.succeeded = 2
run_status_rank RunStatus.failed = 3
run_status_rank RunStatus.timed_out = 4
run_status_rank RunStatus.blocked = 5

abbrev pub run_status_beq : RunStatus → RunStatus → Bool
run_status_beq a b = nat_beq (run_status_rank a) (run_status_rank b)

pub run_status_beq_iff : (a b : RunStatus) → (run_status_beq a b ≡ true) ↔ (a ≡ b)
run_status_beq_iff a b = (λ h. ground arith, λ h. ground arith)

instance abbrev pub run_status_eq : Eq RunStatus
run_status_eq = record { beq = run_status_beq; beq_iff = run_status_beq_iff }

-- `RunStatus::is_terminal`.
abbrev pub run_is_terminal : RunStatus → Bool
run_is_terminal RunStatus.queued = false
run_is_terminal RunStatus.running = false
run_is_terminal _ = true

-- `AttemptCount::incremented` on a `u32`.
abbrev pub incremented : ℕ → ℕ
incremented n = (n + 1) % 2 ^ 32

unfoldable pub attempt_limit : ℕ → Outcome Fault ℕ
attempt_limit value = do refuse_if (value == 0) Fault.attempt_limit_zero; ok value

unfoldable pub timeout_seconds : ℕ → Outcome Fault ℕ
timeout_seconds value = do refuse_if (value == 0) Fault.timeout_zero; ok value

pub record Placement : Type 0 where
  pub worker_ids : List ℕ
  pub resource_ids : List ℕ
  pub model_ids : List ℕ
  pub backends : List ℕ

-- The texts that the code stores as `admission_state`.
pub data AdmissionState : Type 0 where
  queued ready waiting_for_resources running completed failed : AdmissionState

pub record RunMetadata : Type 0 where
  pub queue_path : Option ℕ
  pub result_path : Option ℕ
  pub last_error : Option ℕ
  pub submitted_at : Option ℕ
  pub source_spec : Option ℕ
  pub admission_state : Option AdmissionState
  pub waiting_on_resources : List ℕ
  pub lease_paths : List (ℕ × ℕ)
  pub started_at : Option ℕ
  pub finished_at : Option ℕ

abbrev pub default_metadata : RunMetadata
default_metadata = record {
  queue_path = none;
  result_path = none;
  last_error = none;
  submitted_at = none;
  source_spec = none;
  admission_state = none;
  waiting_on_resources = [];
  lease_paths = [];
  started_at = none;
  finished_at = none;
}

unfoldable pub meta_submitted : ℕ → ℕ → ℕ → RunMetadata → RunMetadata
meta_submitted submitted_at source_spec queue_path m = record m {
  submitted_at = some submitted_at;
  source_spec = some source_spec;
  queue_path = some queue_path;
  admission_state = some AdmissionState.queued;
}

unfoldable pub meta_ready : ℕ → RunMetadata → RunMetadata
meta_ready queue_path m = record m {
  queue_path = some queue_path;
  admission_state = some AdmissionState.ready;
  waiting_on_resources = [];
  lease_paths = [];
}

unfoldable pub meta_waiting : ℕ → List ℕ → RunMetadata → RunMetadata
meta_waiting queue_path waiting_on_resources m = record m {
  queue_path = some queue_path;
  admission_state = some AdmissionState.waiting_for_resources;
  waiting_on_resources = waiting_on_resources;
  lease_paths = [];
}

unfoldable pub meta_running : ℕ → ℕ → List (ℕ × ℕ) → RunMetadata → RunMetadata
meta_running started_at queue_path lease_paths m = record m {
  started_at = some started_at;
  queue_path = some queue_path;
  admission_state = some AdmissionState.running;
  waiting_on_resources = [];
  lease_paths = lease_paths;
  last_error = none;
}

unfoldable pub meta_queued : ℕ → ℕ → Option ℕ → Option ℕ → RunMetadata → RunMetadata
meta_queued queue_path finished_at result_path last_error m = record m {
  queue_path = some queue_path;
  finished_at = some finished_at;
  result_path = result_path;
  last_error = last_error;
  admission_state = some AdmissionState.queued;
  lease_paths = [];
  waiting_on_resources = [];
}

unfoldable pub meta_completed : ℕ → Option ℕ → RunMetadata → RunMetadata
meta_completed finished_at result_path m = record m {
  finished_at = some finished_at;
  result_path = result_path;
  last_error = none;
  admission_state = some AdmissionState.completed;
  queue_path = none;
  lease_paths = [];
  waiting_on_resources = [];
}

unfoldable pub meta_failed : ℕ → Option ℕ → ℕ → RunMetadata → RunMetadata
meta_failed finished_at result_path last_error m = record m {
  finished_at = some finished_at;
  result_path = result_path;
  last_error = some last_error;
  admission_state = some AdmissionState.failed;
  queue_path = none;
  lease_paths = [];
  waiting_on_resources = [];
}

pub record RunState : Type 0 where
  pub task_id : Text
  pub status : RunStatus
  pub attempt_count : ℕ
  pub attempt_limit : ℕ
  pub timeout_seconds : ℕ
  pub placement : Placement
  pub active_node_id : Option ℕ
  pub dag_run_state : Option DagRunState
  pub metadata : RunMetadata

pub record RunStateDraft : Type 0 where
  pub task_id : Text
  pub attempt_limit : ℕ
  pub timeout_seconds : ℕ
  pub placement : Placement

-- `RunState::queued`.
unfoldable pub queued_run : RunStateDraft → RunState
queued_run draft = record {
  task_id = draft.task_id;
  status = RunStatus.queued;
  attempt_count = 0;
  attempt_limit = draft.attempt_limit;
  timeout_seconds = draft.timeout_seconds;
  placement = draft.placement;
  active_node_id = none;
  dag_run_state = none;
  metadata = default_metadata;
}

unfoldable pub start_run : Option ℕ → RunState → RunState
start_run active_node_id r = record r {
  status = RunStatus.running;
  attempt_count = incremented r.attempt_count;
  active_node_id = active_node_id;
}

unfoldable pub queue_run : RunState → RunState
queue_run r = record r { status = RunStatus.queued; active_node_id = none }

unfoldable pub succeed_run : RunState → RunState
succeed_run r = record r { status = RunStatus.succeeded; active_node_id = none }

unfoldable pub fail_run : RunState → RunState
fail_run r = record r { status = RunStatus.failed; active_node_id = none }

abbrev pub with_dag_run_state : DagRunState → RunState → RunState
with_dag_run_state d r = record r { dag_run_state = some d }

abbrev pub with_metadata : RunMetadata → RunState → RunState
with_metadata m r = record r { metadata = m }

unfoldable pub can_retry : RunState → Bool
can_retry r = ltb r.attempt_count r.attempt_limit
