-- ===== src/Lab.antt =====
-- crates/lab-core/src/state.rs: the runs of the laboratory and their operations.
pub mod State
pub mod Exec
pub mod Requests
pub mod Script
pub mod Quota
pub mod Lifecycle
pub mod Submission
pub mod Control
pub mod Step
pub mod Invariant
pub mod Isolation
pub mod Kept
pub mod Frozen
pub mod Payload
pub mod Claims
pub mod ScriptOrder
pub mod Budget
pub mod Allowance
pub mod Capability
pub mod Faults
pub mod PlanRuns
pub mod Invalidation
pub mod Occurrences
pub mod Authorization
pub mod Revoked
pub mod Cancelled
pub mod PlanShell
pub mod Deleted
pub mod Launched
