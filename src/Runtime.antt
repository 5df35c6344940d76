-- ===== src/Runtime.antt =====
-- The runtime crate (crates/rack_ai_runtime): reservations of services and the work under them.
pub mod Types
pub mod Service
pub mod Invocations
pub mod Residency
pub mod Planner
pub mod Reservation
pub mod Reserving
pub mod Transition
pub mod Retirement
pub mod Scopes
pub mod Idle
pub mod Retention
pub mod Config
pub mod Capacity
pub mod Control
pub mod Admission
pub mod Submission
pub mod Dispatch
pub mod Supervisor
pub mod Ownership
pub mod Flight
