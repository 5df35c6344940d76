-- ===== src/Tasks.antt =====
-- The run of the next queued task: crates/rack_ai_application/src/run_next_task.rs with its planning,
-- attempt and resolution, the specification of a task (task_spec.rs, task_dag.rs) and its submission
-- (submit_task.rs).
pub mod Specs
pub mod Effects
pub mod Selection
pub mod Resolution
pub mod Attempt
pub mod Running
pub mod Submitting
pub mod Silence
pub mod Bounds
pub mod Once
pub mod Leases
pub mod Results
pub mod Attempts
pub mod Order
