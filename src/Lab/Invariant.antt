-- ===== src/Lab/Invariant.antt =====
-- What holds of every state that a history of operations reaches.
pub mod Rules
pub mod Sessions
pub mod Payloads
pub mod Freezing
pub mod Deletion
pub mod History
