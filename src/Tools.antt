-- ===== src/Tools.antt =====
-- crates/aifluxon-runtime/src/tools/: validating the arguments of a tool call, the registry of tools,
-- and the decisions of a host's policy. What a tool does is a number that stands for its executor.
pub mod Validation
pub mod Registry
pub mod Policy
