-- ===== src/Examples/Documents.antt =====
-- The documents of the run, and the parts around them.
use rack_ai.Common.{ℕ, true, false, some, none, ◌∷◌, [], ok}
use rack_ai.Runtime.Types.{Reserve, Document, Demand, Map, Invocation, Inference}
use rack_ai.Runtime.Types.Enums.{DemandState, InvocationState, Priority}
use rack_ai.Runtime.Submission.{Submitter}
use rack_ai.Runtime.Submission.Replay.{Archive}
use rack_ai.Runtime.Dispatch.{Dispatcher}
use rack_ai.Examples.{environment, acquire_chat, process, small_limits, chat_profile}

-- The demand that the acquisition stores.
abbrev pub demand : Demand
demand = record {
  reservation_id = none;
  services = [];
  reserve_request = none;
  reservation_closed = none;
  recovery_reconciliation = none;
  recovery_error = none;
  id = 1;
  owner = 5;
  request = acquire_chat 1 Priority.low;
  priority = Priority.low;
  profile = chat_profile;
  profile_hash = 1;
  state = DemandState.preparing;
  reason = none;
  retry_after = none;
  preempted_by = none;
  ready_checked = false;
  accepted_calls = 0;
  generation = 1;
  access_key = 1;
  backend_activation = some 1;
  created = 100;
  last_activity_at = none;
  order = 0;
  deadline = 700;
  transition_deadline = 130;
  victims = [];
  process = none;
  effect_started = false;
  preflight_done = false;
  released = false;
}

-- The document with that demand as its only one, and some calls.
abbrev pub with_demand : Demand → Map Invocation → ℕ → Document
with_demand d calls order = record {
  claims = (0, 1) ∷ [];
  placement_hash = none;
  gateway_port = none;
  demands = (1, d) ∷ [];
  invocations = calls;
  next_invocation_order = order;
  acquisition_decisions = [];
  workspace_scopes = [];
  warm_residencies = [];
}

abbrev pub announced_demand : Demand
announced_demand = record demand { effect_started = true }

abbrev pub started_demand : Demand
started_demand = record announced_demand { process = some process }

abbrev pub ready_demand : Demand
ready_demand = record started_demand { state = DemandState.ready; ready_checked = true }

abbrev pub busy_demand : ℕ → Demand
busy_demand at = record ready_demand { accepted_calls = 1; last_activity_at = some at }

abbrev pub acquired : Document
acquired = with_demand demand [] 0

abbrev pub announced : Document
announced = with_demand announced_demand [] 0

abbrev pub started : Document
started = with_demand started_demand [] 0

abbrev pub ready : Document
ready = with_demand ready_demand [] 0

abbrev pub archive : Archive
archive = record { lookup_work = λ _ _. ok none; lookup_submission = λ _ _ _. ok none }

abbrev pub submitter : Submitter
submitter = record {
  at = 103;
  ms = 103000;
  environment = environment;
  limits = small_limits;
  idle_timeout_seconds = 900;
  fresh = ok 9;
  archive = archive;
  payload_limit = λ _ _. ok 1;
  is_speech = λ _. false;
  admit_speech = λ _ _ _. ok tt;
  store = λ _ _ _. ok (record { sha256 = 1; bytes = 10; path = 1 });
}

abbrev pub request : Inference
request = record {
  work = none;
  schema = 1;
  submission_id = 3;
  reservation_id = 1;
  generation = 1;
  profile_hash = 1;
  prompt = 104 ∷ [];
  payload = none;
  max_tokens = 16;
  timeout_seconds = 30;
  wait_seconds = some 60;
  workspace_scope = none;
}

abbrev pub queued_call : Invocation
queued_call = record {
  scope_access_hash = none;
  id = 9;
  owner = 5;
  request = record request { prompt = [] };
  request_digest = some 1;
  request_bytes = some 10;
  work_digest = none;
  work_bytes = none;
  request_ref = some (record { sha256 = 1; bytes = 10; path = 1 });
  state = InvocationState.queued;
  queue_order = 0;
  created = 103;
  waiting_deadline = 163;
  execution_deadline = none;
  response_bytes = 1024;
  cancellation = none;
  late_result = none;
  result_digest = none;
  late_result_digest = none;
  result_ref = none;
  late_result_ref = none;
  started = none;
  completed = none;
  activation = none;
  result = none;
  error = none;
}

abbrev pub running_call : Invocation
running_call = record queued_call {
  state = InvocationState.running;
  started = some 104;
  execution_deadline = some 134;
  activation = some 1;
}

abbrev pub submitted : Document
submitted = with_demand (busy_demand 103) ((9, queued_call) ∷ []) 1

abbrev pub running : Document
running = with_demand (busy_demand 104) ((9, running_call) ∷ []) 1

abbrev pub dispatcher : Dispatcher
dispatcher = record {
  at = 104;
  ms = 104000;
  max_dispatch_workers = 2;
  idle_timeout_seconds = 900;
  access_digest = λ _. 1;
}

abbrev pub reservation : Reserve
reservation = record {
  acquisition_id = 1;
  work_id = 1;
  services = 7 ∷ [];
  priority = Priority.low;
  ttl_seconds = 600;
  retained_model_interactions = false;
}
