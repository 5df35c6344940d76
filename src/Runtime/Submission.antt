-- ===== src/Runtime/Submission.antt =====
-- A call is accepted: `Submission::submit` of crates/rack_ai_runtime/src/inference.rs, with
-- `store_request` of payload_store.rs.
pub mod Replay
pub mod Matching
pub mod Earlier
pub mod Acceptance
use rack_ai.Common.{
  ℕ, ◌*◌, Bool, true, false, not, ◌&&◌, ◌||◌, Option, some, none, List, ◌∷◌, [], ltb, if◌then◌else◌,
  ◌==◌, nat_eq, is_some_and, unwrap_or, get_or_insert, ok, err, ok_or, refuse_if, ◌>>=◌, ◌>>◌,
  add64, saturating_add,
}
use rack_ai.Common.Map.{lookup, modify, insert}
use rack_ai.Runtime.Types.{Document, Demand, Invocation, Inference, Work, StoredPayloadRef, Result}
use rack_ai.Runtime.Types.Enums.{DemandState, InvocationState, Backend, demand_state_eq, backend_eq}
use rack_ai.Runtime.Types.Messages.{Failure}
use rack_ai.Runtime.Config.{Environment, Limits}
use rack_ai.Runtime.Service.{owned, active, is_workspace_payload}
use rack_ai.Runtime.Reservation.{is_ready}
use rack_ai.Runtime.Scopes.{permits}
use rack_ai.Runtime.Idle.{touch}
use rack_ai.Runtime.Retention.{refresh}
use rack_ai.Runtime.Capacity.{pending, retention}
use rack_ai.Runtime.Capacity.Compaction.{compact_request}
use rack_ai.Runtime.Admission.{valid_id}
use Replay.{Archive, replayed}

-- What a submission reads around the document. `payload_limit` and `is_speech` stand for the
-- protocol payload (protocol.rs), `admit_speech` for the check of speech.rs, `store` for the file
-- that a request is written to, and `fresh` for the identifier that is drawn.
pub record Submitter : Type 0 where
  pub at : ℕ
  pub ms : ℕ
  pub environment : Environment
  pub limits : Limits
  pub idle_timeout_seconds : ℕ
  pub fresh : Result ℕ
  pub archive : Archive
  pub payload_limit : Demand → ℕ → Result ℕ
  pub is_speech : ℕ → Bool
  pub admit_speech : Document → Demand → Inference → Result (Unit {0})
  pub store : ℕ → ℕ → Inference → Result StoredPayloadRef

abbrev pub max_workspace_seconds : ℕ
max_workspace_seconds = 3600

abbrev pub workspace_response_bytes : ℕ
workspace_response_bytes = 64 * 1024

abbrev pub max_wav_bytes : ℕ
max_wav_bytes = 2880044

-- The reservation is ready for the call, under the generation that the caller names.
unfoldable pub dispatch_check : ℕ → Document → Demand → Inference → Result (Unit {0})
dispatch_check at s d request = do
  refuse_if (d.profile.backend == Backend.comfyui) Failure.use_versioned_media_interface
  refuse_if (d.state == DemandState.preempting) Failure.reservation_preempting
  refuse_if (d.state == DemandState.preempted) Failure.reservation_preempted
  refuse_if (d.state == DemandState.unavailable) Failure.service_unavailable
  refuse_if (not (active at d) || (not (d.state == DemandState.ready) || not (is_ready at s d)))
      Failure.reservation_not_dispatchable
  refuse_if
      (not (d.generation == request.generation) || not (d.profile_hash == request.profile_hash))
      Failure.stale_generation_or_profile

unfoldable pub payload_check : Submitter → Document → Demand → Inference → Result (Unit {0})
payload_check k s d request = do
  if d.profile.backend == Backend.chatterbox then k.admit_speech s d request else ok tt
  elim request.payload [
    | none ↦ ok tt
    | some p ↦ do
      tokens ← k.payload_limit d p
      refuse_if (not (tokens == request.max_tokens)) Failure.output_limit_mismatch
  ]

unfoldable pub wait_of : Submitter → Inference → ℕ
wait_of k request = unwrap_or request.wait_seconds k.limits.max_wait_seconds

unfoldable pub limits_check : Submitter → Demand → Inference → Result (Unit {0})
unfolding wait_of
limits_check k d request = do
  refuse_if
      (not (request.schema == k.environment.version)
        || (not (valid_id (k.environment.text request.submission_id))
            || (request.timeout_seconds == 0
                || (ltb
                      (if is_workspace_payload request.work
                        then max_workspace_seconds
                        else d.profile.inference_seconds)
                      request.timeout_seconds
                    || (request.max_tokens == 0
                        || ltb d.profile.max_output_tokens request.max_tokens)))))
      Failure.inference_limits
  refuse_if (wait_of k request == 0 || ltb k.limits.max_wait_seconds (wait_of k request))
      Failure.waiting_limits

unfoldable pub admissible : Submitter → Document → ℕ → Inference → Result Demand
unfolding dispatch_check payload_check limits_check
admissible k s owner request = do
  refuse_if (not (permits k.at k.ms s request)) Failure.workspace_scope_closed_or_unknown
  d ← owned s owner request.reservation_id
  dispatch_check k.at s d request
  payload_check k s d request
  limits_check k d request
  pending k.limits s request.reservation_id
  ok d

unfoldable pub response_bytes_of : Submitter → Inference → ℕ
response_bytes_of k request =
    if is_workspace_payload request.work
    then workspace_response_bytes
    else if is_some_and request.payload k.is_speech
    then max_wav_bytes
    else k.limits.max_response_bytes

unfoldable pub new_call : Submitter → ℕ → ℕ → ℕ → Inference → Invocation
unfolding response_bytes_of wait_of
new_call k owner id queue_order request = record {
  scope_access_hash = none;
  id = id;
  owner = owner;
  request = request;
  request_digest = none;
  request_bytes = none;
  work_digest = none;
  work_bytes = none;
  request_ref = none;
  state = InvocationState.queued;
  queue_order = queue_order;
  created = k.at;
  waiting_deadline = add64 k.at (wait_of k request);
  execution_deadline = none;
  response_bytes = response_bytes_of k request;
  cancellation = none;
  late_result = none;
  result_digest = none;
  late_result_digest = none;
  result_ref = none;
  late_result_ref = none;
  started = none;
  completed = none;
  activation = none;
  result = none;
  error = none;
}

unfoldable pub measured_work : Environment → Option Work → Invocation → Result Invocation
measured_work env none i = ok i
measured_work env (some w) i = do
  bytes ← env.work_length w
  ok (record i {
    work_digest = get_or_insert i.work_digest (env.work_digest w);
    work_bytes = get_or_insert i.work_bytes bytes;
  })

-- The request goes to its file; the call keeps its digest.
unfoldable pub store_request : Submitter → Invocation → Result Invocation
unfolding measured_work
store_request k i = do
  r ← k.store i.owner i.id i.request
  j ← measured_work k.environment i.request.work (record i {
    request_digest = get_or_insert i.request_digest r.sha256;
    request_bytes = get_or_insert i.request_bytes r.bytes;
  })
  ok (record j { request_ref = some r; request = compact_request i.request })

unfoldable pub count_call : Document → ℕ → Document
count_call s id = record s {
  demands =
      modify id (λ d. record d { accepted_calls = saturating_add d.accepted_calls 1 }) s.demands;
  next_invocation_order = saturating_add s.next_invocation_order 1;
}

-- The stored call enters the document, as activity of its reservation.
unfoldable pub enqueue : Submitter → Document → Invocation → Result Document
enqueue k s i = do
  touched ← touch s i.request.reservation_id k.at
  refreshed ← refresh touched k.idle_timeout_seconds k.at
  retention k.environment k.limits
      (record refreshed { invocations = insert i.id i refreshed.invocations })

unfoldable pub accept : Submitter → Document → ℕ → Inference → Result (Document × Invocation)
unfolding admissible new_call store_request count_call enqueue
accept k s owner request = do
  _ ← admissible k s owner request
  id ← k.fresh
  i ← store_request k (new_call k owner id s.next_invocation_order request)
  s' ← enqueue k (count_call s request.reservation_id) i
  ok (s', i)

unfoldable pub submit : Submitter → Document → ℕ → Inference → Result (Document × Invocation)
unfolding accept
submit k s owner request = replayed k.at k.environment k.archive s owner request >>= λ found.
    elim found [ some i ↦ ok (s, i) | none ↦ accept k s owner request ]
