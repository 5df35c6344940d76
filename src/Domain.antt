-- ===== src/Domain.antt =====
pub mod Faults
pub mod Names
pub mod Paths
pub mod Dag
pub mod Runs
