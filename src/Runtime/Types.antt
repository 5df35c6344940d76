-- ===== src/Runtime/Types.antt =====
-- The data that the authority keeps: crates/rack_ai_runtime/src/types.rs, config.rs,
-- work_payload.rs, reservation.rs and workspace_scope.rs. Times are seconds or milliseconds as in
-- the source; an identifier or another text that the code only compares is a number.
pub mod Enums
pub mod Messages
use rack_ai.Common.{Outcome, ℕ, Bool, Option, some, none, List, ◌∷◌, []}
use Enums.{DemandState, InvocationState, WarmState, Priority, Capability, Backend, Driver}
use Messages.{Message, Failure}

abbrev pub Result : Type 0 → Type 0
Result A = Outcome Failure A

-- The characters of a text that the code clears or measures.
abbrev pub Text : Type 0
Text = List ℕ

abbrev pub Map : Type 0 → Type 0
Map V = List (ℕ × V)

pub record Profile : Type 0 where
  pub tag : ℕ
  pub model : ℕ
  pub backend : Backend
  pub driver : Driver
  pub qualified : Bool
  pub capabilities : List Capability
  pub context_tokens : ℕ
  pub max_output_tokens : ℕ
  pub resources : List ℕ
  pub host_mib : ℕ
  pub endpoint : ℕ
  pub startup_seconds : ℕ
  pub drain_seconds : ℕ
  pub stop_seconds : ℕ
  pub inference_seconds : ℕ

pub record Acquire : Type 0 where
  pub schema : ℕ
  pub source_system : ℕ
  pub work_id : ℕ
  pub acquisition_id : ℕ
  pub tag : ℕ
  pub priority : Option Priority
  pub capabilities : List Capability
  pub context_tokens : ℕ
  pub ttl_seconds : ℕ
  pub qualification : Bool

pub record Reserve : Type 0 where
  pub acquisition_id : ℕ
  pub work_id : ℕ
  pub services : List ℕ
  pub priority : Priority
  pub ttl_seconds : ℕ
  pub retained_model_interactions : Bool

pub record Process : Type 0 where
  pub pid : ℕ
  pub boot : ℕ
  pub start : ℕ
  pub activation : ℕ
  pub unit : Option ℕ
  pub container : Option ℕ
  pub invocation : Option ℕ

-- A reservation of one service. The receipts of a recovery are kept as numbers.
pub record Demand : Type 0 where
  pub reservation_id : Option ℕ
  pub services : Map ℕ
  pub reserve_request : Option Reserve
  pub reservation_closed : Option DemandState
  pub recovery_reconciliation : Option ℕ
  pub recovery_error : Option Message
  pub id : ℕ
  pub owner : ℕ
  pub request : Acquire
  pub priority : Priority
  pub profile : Profile
  pub profile_hash : ℕ
  pub state : DemandState
  pub reason : Option Message
  pub retry_after : Option ℕ
  pub preempted_by : Option ℕ
  pub ready_checked : Bool
  pub accepted_calls : ℕ
  pub generation : ℕ
  pub access_key : ℕ
  pub backend_activation : Option ℕ
  pub created : ℕ
  pub last_activity_at : Option ℕ
  pub order : ℕ
  pub deadline : ℕ
  pub transition_deadline : ℕ
  pub victims : List ℕ
  pub process : Option Process
  pub effect_started : Bool
  pub preflight_done : Bool
  pub released : Bool

pub record WarmResidency : Type 0 where
  pub id : ℕ
  pub profile_hash : ℕ
  pub profile : Profile
  pub backend : Backend
  pub driver : Driver
  pub model : ℕ
  pub resources : List ℕ
  pub endpoint : ℕ
  pub process : Process
  pub cached_at : ℕ
  pub last_ready_at : ℕ
  pub state : WarmState

-- `details` stands for the fields of a workspace that nothing here reads.
pub record Workspace : Type 0 where
  pub objective : Text
  pub timeout_seconds : ℕ
  pub details : ℕ

pub data WorkPayload : Type 0 where
  inference_payload : Text → ℕ → ℕ → WorkPayload
  workspace_payload : Workspace → WorkPayload

pub record Work : Type 0 where
  pub reservation_id : ℕ
  pub service : ℕ
  pub work_id : ℕ
  pub payload : WorkPayload
  pub wait_seconds : Option ℕ

pub record Inference : Type 0 where
  pub work : Option Work
  pub schema : ℕ
  pub submission_id : ℕ
  pub reservation_id : ℕ
  pub generation : ℕ
  pub profile_hash : ℕ
  pub prompt : Text
  pub payload : Option ℕ
  pub max_tokens : ℕ
  pub timeout_seconds : ℕ
  pub wait_seconds : Option ℕ
  pub workspace_scope : Option ℕ

pub record StoredPayloadRef : Type 0 where
  pub sha256 : ℕ
  pub bytes : ℕ
  pub path : ℕ

-- One call under a reservation. A result is the number of its JSON value; `cancellation` holds
-- the time at which the cancellation was requested.
pub record Invocation : Type 0 where
  pub scope_access_hash : Option ℕ
  pub id : ℕ
  pub owner : ℕ
  pub request : Inference
  pub request_digest : Option ℕ
  pub request_bytes : Option ℕ
  pub work_digest : Option ℕ
  pub work_bytes : Option ℕ
  pub request_ref : Option StoredPayloadRef
  pub state : InvocationState
  pub queue_order : ℕ
  pub created : ℕ
  pub waiting_deadline : ℕ
  pub execution_deadline : Option ℕ
  pub response_bytes : ℕ
  pub cancellation : Option ℕ
  pub late_result : Option ℕ
  pub result_digest : Option ℕ
  pub late_result_digest : Option ℕ
  pub result_ref : Option StoredPayloadRef
  pub late_result_ref : Option StoredPayloadRef
  pub started : Option ℕ
  pub completed : Option ℕ
  pub activation : Option ℕ
  pub result : Option ℕ
  pub error : Option Message

pub record WorkspaceScope : Type 0 where
  pub invocation_id : Option ℕ
  pub owner : ℕ
  pub reservation_id : ℕ
  pub deadline_ms : ℕ
  pub closed_at_ms : Option ℕ
  pub authorization_hash : ℕ

pub record AcquisitionDecision : Type 0 where
  pub owner : ℕ
  pub environment : ℕ
  pub reason : Message
  pub retry_after : ℕ
  pub expires_at : ℕ

-- The authority's document; the fields of its `data` stand beside the claims.
pub record Document : Type 0 where
  pub claims : Map ℕ
  pub placement_hash : Option ℕ
  pub gateway_port : Option ℕ
  pub demands : Map Demand
  pub invocations : Map Invocation
  pub next_invocation_order : ℕ
  pub acquisition_decisions : Map AcquisitionDecision
  pub workspace_scopes : Map WorkspaceScope
  pub warm_residencies : Map WarmResidency
