-- ===== src/Model.antt =====
-- The data of crates/lab-core/src/model.rs, one child module for each group of types. A record has
-- the fields of the struct, and a data type the variants of the enum. `u16`, `u64` and `usize` are
-- native numbers.
pub mod Values
pub mod Scenario
pub mod Truth
pub mod Collector
pub mod Audit
pub mod Report
