-- ===== src/Coordinator.antt =====
-- crates/aifluxon-runtime/src/coordinator.rs and the messages of continuation.rs: the loop over a
-- model and its tools.
pub mod Process
pub mod Messages
pub mod Execution
pub mod Loop
pub mod Interleaving
pub mod Rounds
pub mod Returns
pub mod Answers
pub mod Permits
pub mod Permission
