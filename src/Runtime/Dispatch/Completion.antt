-- ===== src/Runtime/Dispatch/Completion.antt =====
-- The end of a call: `Completion::save` and `failure_state` of
-- crates/rack_ai_runtime/src/dispatch.rs.
use rack_ai.Common.{
  ℕ, Bool, true, false, not, ◌&&◌, ◌||◌, Option, some, none, leb, if◌then◌else◌, ◌==◌, nat_eq,
  option_eq, any, is_none, is_some_and, ok, err, ok_or, ◌>>=◌, Outcome,
}
use rack_ai.Common.Map.{lookup, modify, values}
use rack_ai.Runtime.Types.{
  Document, Demand, Invocation, StoredPayloadRef, Result, Map, WorkspaceScope,
}
use rack_ai.Runtime.Types.Enums.{InvocationState, invocation_state_eq}
use rack_ai.Runtime.Types.Messages.{Failure, Message}
use rack_ai.Runtime.Config.{Environment, Limits}
use rack_ai.Runtime.Service.{is_workspace, is_running_or_uncertain}
use rack_ai.Runtime.Scopes.{cancel_closed}
use rack_ai.Runtime.Idle.{touch}
use rack_ai.Runtime.Retention.{refresh}
use rack_ai.Runtime.Capacity.{retention}

-- The errors of a backend, as far as the state of the call depends on them.
pub data BackendError : Type 0 where
  response_oversized transport_uncertain read_uncertain : BackendError
  speech_transport_uncertain speech_read_uncertain : BackendError
  input_admission other_error : ℕ → BackendError

unfoldable pub failure_state : BackendError → InvocationState
failure_state BackendError.response_oversized = InvocationState.failed
failure_state (BackendError.input_admission e) = InvocationState.failed
failure_state _ = InvocationState.uncertain

-- What a call reads of the JSON value that a backend returned.
pub record BackendResult : Type 0 where
  pub value : ℕ
  pub has_packet_path : Bool
  pub has_protocol_response : Bool
  pub model : Option ℕ
  pub has_choices : Bool
  pub completion_tokens : Option ℕ

unfoldable pub is_valid_result : Invocation → Demand → BackendResult → Bool
is_valid_result i d r =
    (is_workspace i && r.has_packet_path)
    || ((not (is_none i.request.payload) && r.has_protocol_response)
        || (r.model == some d.profile.model
            && (r.has_choices
                && is_some_and r.completion_tokens (λ tokens. leb tokens i.request.max_tokens))))

-- The files of the payload store (payload_store.rs) are outside of the model; what a store
-- returns is a parameter. The value itself stays in its file.
pub record PayloadStore : Type 0 where
  pub store_result : ℕ → Result StoredPayloadRef
  pub store_late_result : ℕ → Result StoredPayloadRef

-- A nested call of this workspace whose outcome is not known.
unfoldable pub is_open_child : Map WorkspaceScope → ℕ → Invocation → Bool
is_open_child scopes id child = elim child.request.workspace_scope [
  | none ↦ false
  | some scope ↦
      is_some_and (lookup scope scopes) (λ sc. sc.invocation_id == some id)
      && is_running_or_uncertain child.state
]

unfoldable pub unknown_child : Document → ℕ → Invocation → Bool
unfolding is_open_child
unknown_child s id i =
    is_workspace i && any (is_open_child s.workspace_scopes id) (values s.invocations)

unfoldable pub with_late_result : PayloadStore → ℕ → Invocation → Result Invocation
with_late_result store v i = do
  r ← store.store_late_result v
  ok (record i { late_result_digest = some r.sha256; late_result_ref = some r; late_result = none })

unfoldable pub with_result : PayloadStore → ℕ → Invocation → Result Invocation
with_result store v i = do
  r ← store.store_result v
  ok (record i { result_digest = some r.sha256; result_ref = some r; result = none })

unfoldable pub child_uncertain : ℕ → Invocation → Invocation
child_uncertain at i = record i {
  state = InvocationState.uncertain;
  completed = some at;
  error = some (Message.failure Failure.workspace_model_outcome_uncertain);
}

unfoldable pub result_state : Bool → Bool → InvocationState
result_state false c = InvocationState.uncertain
result_state true true = InvocationState.cancelled
result_state true false = InvocationState.completed

unfoldable pub completed_call : ℕ → Bool → Invocation → Invocation
unfolding result_state
completed_call at valid i = record i {
  state = result_state valid (not (is_none i.cancellation));
  error =
      if valid
      then i.error
      else some (Message.failure Failure.backend_result_identity_or_limits_unproven);
  completed = some at;
}

unfoldable pub failed_call : ℕ → BackendError → Message → Invocation → Invocation
unfolding failure_state
failed_call at e text i = record i {
  state = failure_state e;
  error = some text;
  completed = some at;
}

-- The stored call after the backend's outcome; `i` is as it stands in the document, `seen` as the
-- dispatcher started it. `text` is the bounded diagnostic of an error.
unfoldable pub outcome_call :
    ℕ
    → PayloadStore
    → (BackendError → Message)
    → Invocation
    → Demand
    → Outcome BackendError BackendResult
    → Invocation
    → Result Invocation
unfolding completed_call failed_call with_result with_late_result
outcome_call at store text seen d (err e) i = ok (failed_call at e (text e) i)
outcome_call at store text seen d (ok r) i =
    (if is_none i.cancellation
      then with_result store r.value i
      else with_late_result store r.value i)
    >>= λ j. ok (completed_call at (is_valid_result seen d r) j)

unfoldable pub child_call :
    ℕ → PayloadStore → Outcome BackendError BackendResult → Invocation → Result Invocation
unfolding child_uncertain with_late_result
child_call at store (err e) i = ok (child_uncertain at i)
child_call at store (ok r) i = with_late_result store r.value (child_uncertain at i)

-- The activity and the bounds after a call has ended; an uncertain one is no activity.
unfoldable pub finalize : ℕ → ℕ → Environment → Limits → Document → ℕ → Bool → Result Document
finalize at idle env limits s demand uncertain =
    (if uncertain then ok s else (touch s demand at >>= λ touched. refresh touched idle at))
    >>= λ s'. retention env limits s'

pub record CompletionContext : Type 0 where
  pub at : ℕ
  pub ms : ℕ
  pub idle_timeout_seconds : ℕ
  pub environment : Environment
  pub limits : Limits
  pub store : PayloadStore
  pub text : BackendError → Message

unfoldable pub save_call :
    CompletionContext
    → Document
    → Invocation
    → Demand
    → Outcome BackendError BackendResult
    → Result Document
unfolding unknown_child outcome_call child_call finalize
save_call k s seen d result = do
  i ← ok_or (lookup seen.id s.invocations) Failure.missing_invocation
  if not (i.state == InvocationState.running) || not (i.activation == seen.activation)
      then err Failure.late_invocation_callback
      else if unknown_child s seen.id seen
      then (child_call k.at k.store result i >>= λ j.
          ok (record s { invocations = modify seen.id (λ _. j) s.invocations }))
      else (outcome_call k.at k.store k.text seen d result i >>= λ j.
          finalize k.at k.idle_timeout_seconds k.environment k.limits
            (record s { invocations = modify seen.id (λ _. j) s.invocations }) d.id
            (j.state == InvocationState.uncertain))

-- `Completion::save`. The start update of dispatch.rs closed scopes before; so does this one.
unfoldable pub save :
    CompletionContext
    → Document
    → Invocation
    → Demand
    → Outcome BackendError BackendResult
    → Result Document
unfolding save_call
save k s seen d result = save_call k (cancel_closed k.at k.ms s) seen d result
