-- ===== src/Core.antt =====
-- crates/aifluxon-core: the types that the runtime's parts share. Identifiers are UUIDs, which
-- are read as their 128-bit numbers; a JSON `Value` belongs to serde_json and is a parameter `V`.
pub mod Message
pub mod Operation
pub mod Run
pub mod Tool
pub mod Provider
