-- ===== src/Runtime/Capacity.antt =====
-- Bounds on what is retained: crates/rack_ai_runtime/src/capacity.rs, with the commitments of
-- payload_store.rs.
pub mod Compaction
pub mod Sufficiency
use rack_ai.Common.{
  ℕ, ◌*◌, ◌/◌, Bool, true, false, not, ◌&&◌, ◌||◌, Option, some, none, List, ◌∷◌, [], map, ltb, leb,
  min, max, if◌then◌else◌, ◌==◌, nat_eq, keep, count_if, sum64, add64, saturating_add,
  saturating_mul, unwrap_or, ok, err, ◌>>=◌, ◌>>◌, u64_mod, ◌%◌,
}
use rack_ai.Common.Map.{lookup, values}
use rack_ai.Runtime.Types.{Document, Invocation, StoredPayloadRef, Result}
use rack_ai.Runtime.Types.Enums.{InvocationState}
use rack_ai.Runtime.Types.Messages.{Failure}
use rack_ai.Runtime.Config.{Limits, Environment}
use Compaction.{compact_terminal_requests, compact_terminal_payloads}

unfoldable pub is_pending : InvocationState → Bool
is_pending InvocationState.queued = true
is_pending InvocationState.running = true
is_pending _ = false

-- `Limits::pending`: whether one more call of the reservation may wait.
unfoldable pub pending : Limits → Document → ℕ → Result (Unit {0})
unfolding is_pending
pending l s reservation =
    let waiting = keep (λ i. is_pending i.state) (values s.invocations) in
    if leb l.max_pending (count_if (λ i. true) waiting)
    then err Failure.capacity_pending_global
    else if leb l.max_pending_per_reservation
        (count_if (λ i. i.request.reservation_id == reservation) waiting)
    then err Failure.capacity_pending_reservation
    else elim (lookup reservation s.demands) [
      | none ↦ err Failure.missing_reservation
      | some d ↦ ok tt
    ]

abbrev pub api_request_body_bytes : ℕ
api_request_body_bytes = 1024 * 1024

abbrev pub completion_headroom_bytes : ℕ
completion_headroom_bytes = 64 * 1024

unfoldable pub response_storage_bound : ℕ → ℕ
response_storage_bound response_bytes = saturating_add (saturating_mul response_bytes 2) 4096

abbrev pub stored_bytes : Option StoredPayloadRef → ℕ
stored_bytes none = 0
stored_bytes (some r) = r.bytes

unfoldable pub response_storage_commitment : Invocation → ℕ
unfolding response_storage_bound
response_storage_commitment i =
    max (response_storage_bound i.response_bytes)
      (saturating_add (stored_bytes i.result_ref) (stored_bytes i.late_result_ref))

abbrev pub length_or_zero : Result ℕ → ℕ
length_or_zero (ok n) = n
length_or_zero (err e) = 0

unfoldable pub request_bytes : Environment → Invocation → ℕ
request_bytes env i = elim i.request_ref [
  | some r ↦ r.bytes
  | none ↦ unwrap_or i.request_bytes (length_or_zero (env.request_length i.request))
]

unfoldable pub active_payload_commitment : Environment → Invocation → ℕ
unfolding request_bytes response_storage_commitment
active_payload_commitment env i =
    saturating_add (request_bytes env i) (response_storage_commitment i)

unfoldable pub active_payload_capacity : Limits → ℕ
unfolding response_storage_bound
active_payload_capacity l =
    saturating_add
      (saturating_mul l.max_pending
        (saturating_add api_request_body_bytes (response_storage_bound l.max_response_bytes)))
      ((l.max_dispatch_workers * completion_headroom_bytes) % u64_mod)

unfoldable pub check_capacity : Environment → Limits → Document → Result (Unit {0})
unfolding active_payload_commitment active_payload_capacity is_pending
check_capacity env l s = do
  control_reserved ← env.document_length s
  if ltb l.retention_admission_bytes (saturating_add control_reserved completion_headroom_bytes)
      then err Failure.capacity_active_control
      else if ltb (active_payload_capacity l) (
          saturating_add
            (sum64 (
              map (active_payload_commitment env)
                (keep (λ i. is_pending i.state) (values s.invocations))))
            completion_headroom_bytes)
      then err Failure.capacity_active_payload
      else ok tt

-- Terminal evidence is compacted before it can crowd out active work.
unfoldable pub retention : Environment → Limits → Document → Result Document
unfolding check_capacity
retention env l s = do
  invocations ← compact_terminal_requests env s.invocations
  invocations' ←
      compact_terminal_payloads env
        (min l.terminal_evidence_bytes (l.retention_admission_bytes / 2)) invocations
  let s' = record s { invocations = invocations' }
  check_capacity env l s'
  ok s'
