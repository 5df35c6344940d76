-- ===== src/Domain/Faults.antt =====
-- The messages with which the values of crates/rack_ai_domain are refused.
pub data Fault : Type 0 where
  command_empty executable_traversal : Fault
  path_empty path_not_relative paths_empty : Fault
  attempt_limit_zero timeout_zero : Fault
  change_id_empty change_id_unsafe change_task_empty : Fault
  repository_id_empty repository_id_unsafe : Fault
  git_ref_empty git_ref_invalid git_sha_not_full : Fault
  artifact_empty artifact_not_relative : Fault
  task_id_empty active_node_id_empty : Fault
  work_unit_id_empty work_unit_id_unsupported workload_id_empty workload_id_unsupported : Fault
  network_not_disabled : Fault
  duplicate_node node_state_missing : Fault
