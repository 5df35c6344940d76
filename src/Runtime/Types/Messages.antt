-- ===== src/Runtime/Types/Messages.antt =====
-- The texts that the runtime puts in errors and in the reason of a demand or an invocation.
use rack_ai.Common.{ℕ}

pub data Failure : Type 0 where
  not_found : Failure
  missing_reservation missing_reservation_root missing_reservation_member : Failure
  missing_invocation missing_transition missing_victim : Failure
  ownership_uncertain : Failure
  -- ownership_uncertain:{e}, for an error of the legacy lease directory
  ownership_unreadable : ℕ → Failure
  legacy_ownership_requires_migration : Failure
  incumbent_priority transition_or_recovery_blocked_by : ℕ → Failure
  transition_or_recovery_blocked transition_fence_changed : Failure
  insufficient_host_memory : Failure
  victim_not_safely_preempted victim_transition_changed stale_victim_callback : Failure
  drain_deadline_invocation_uncertain stale_transition_callback : Failure
  stale_generation reservation_terminal invalid_ttl : Failure
  source_spoofing identity_conflict invalid_request qualification_mode_denied : Failure
  unknown_tag unqualified_profile capability_or_context_unqualified : Failure
  reservation_id_required service_not_reserved : Failure
  invalid_runtime_capacity_limits capacity_pending_global capacity_pending_reservation : Failure
  capacity_active_control capacity_active_payload : Failure
  late_invocation_callback workspace_model_outcome_uncertain : Failure
  backend_result_identity_or_limits_unproven : Failure
  start_outcome_unknown physical_map_requires_migration : Failure
  workspace_scope_closed_or_unknown use_versioned_media_interface : Failure
  reservation_preempting reservation_preempted service_unavailable : Failure
  reservation_not_dispatchable stale_generation_or_profile output_limit_mismatch : Failure
  inference_limits waiting_limits : Failure
  invalid_call_namespace invalid_scoped_capability : Failure
  workspace_scope_identity_conflict workspace_scope_deadline_limits : Failure
  unknown_workspace_scope : Failure
  warm_residency_missing warm_residency_overlap warm_process_missing : Failure
  atomic_resource_overlap : Failure
  -- a failure of code that is not modelled, by a number for its text
  external : ℕ → Failure

pub data Message : Type 0 where
  preempted_by_higher_priority cancelled_by_owner released_by_owner idle_timeout : Message
  reservation_superseded interrupted_start receiver_restart invocation_outcome_unknown : Message
  failure : Failure → Message
