-- ===== src/Plan.antt =====
-- crates/lab-core/src/plan.rs: experiment plans and their runs.
pub mod Settings
pub mod Definition
pub mod Run
pub mod Checks
pub mod Content
pub mod Validation
pub mod Canonical
pub mod Limits
pub mod Soundness
pub mod Accepted
pub mod Store
pub mod Promise
pub mod Stored
pub mod Opening
pub mod Revisions
pub mod Simulation
pub mod Pages
pub mod Execution
pub mod Report
pub mod Audited
pub mod Passed
pub mod Tiles
