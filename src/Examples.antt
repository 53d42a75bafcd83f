-- ===== src/Examples.antt =====
-- Concrete inputs at which the theorems apply, and runs of the definitions.
mod Approvals
mod Limits
mod Events
mod Sessions
mod Streams
mod ServerEvents
mod ToolCalls
mod Files
mod Coordination
mod Messages
mod Finishing
