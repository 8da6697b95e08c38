-- ===== src/Judge.antt =====
-- The judge of a run, `crates/lab-core/src/judge.rs`.
pub mod Input
pub mod Status
pub mod Checks
pub mod Reports
pub mod Verdict
pub mod Outcome
pub mod Statuses
pub mod Matching
pub mod Sequence
