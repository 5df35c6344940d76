-- ===== src/Runtime/Submission/Acceptance.antt =====
-- Which calls are accepted.
use rack_ai.Common.{ℕ, ◌<◌, ◌≤◌, true, some, ◌≡◌, ◌==◌, nat_eq, keep, count_if}
use rack_ai.Common.Map.{lookup, values}
use rack_ai.Runtime.Types.{Document, Demand, Invocation, Inference, StoredPayloadRef}
use rack_ai.Runtime.Types.Enums.{DemandState, InvocationState, demand_state_eq}
use rack_ai.Runtime.Service.{active, owns}
use rack_ai.Runtime.Reservation.{is_ready}
use rack_ai.Runtime.Scopes.{permits}
use rack_ai.Runtime.Capacity.{is_pending}
use rack_ai.Runtime.Submission.{Submitter, wait_of}
use rack_ai.Runtime.Submission.Earlier.{Earlier}

pub record Acceptable (k : Submitter) (s : Document) (owner : ℕ) (request : Inference)
    : Type 0 where
  pub demand : Demand
  pub stored : lookup request.reservation_id s.demands ≡ some demand
  pub same_owner : demand.owner ≡ owner
  pub is_ready : demand.state ≡ DemandState.ready
  pub is_active : active k.at demand ≡ true
  pub owning : owns s demand ≡ true
  pub same_generation : demand.generation ≡ request.generation
  pub in_scope : permits k.at k.ms s request ≡ true
  pub output_bounded : request.max_tokens ≤ demand.profile.max_output_tokens
  pub wait_bounded : wait_of k request ≤ k.limits.max_wait_seconds
  pub room :
      count_if (λ i. true) (keep (λ i. is_pending i.state) (values s.invocations))
      < k.limits.max_pending
  pub room_in_reservation :
      count_if
        (λ i. i.request.reservation_id == request.reservation_id)
        (keep (λ i. is_pending i.state) (values s.invocations))
      < k.limits.max_pending_per_reservation

-- What the state of the demand allows.
record Serving (at : ℕ) (s : Document) (d : Demand) (request : Inference) : Type 0 where
  is_ready : d.state ≡ DemandState.ready
  is_active : active at d ≡ true
  owning : owns s d ≡ true
  same_generation : d.generation ≡ request.generation

-- The call as it is accepted: it waits, for the owner, behind all calls that were accepted before.
pub record Queued (k : Submitter) (s : Document) (owner : ℕ) (i : Invocation) : Type 0 where
  pub waits : i.state ≡ InvocationState.queued
  pub same_owner : i.owner ≡ owner
  pub behind : i.queue_order ≡ s.next_invocation_order
  pub created_now : i.created ≡ k.at
  pub keeps_request : (r : StoredPayloadRef) × (i.request_ref ≡ some r)
