-- ===== src/Registry.antt =====
-- src/protocol/event-registry: the append-only governance event log.
pub mod Lock
pub mod Schema
pub mod Event
pub mod Lines
pub mod Rejections
pub mod Storage
pub mod Query
pub mod Appending
pub mod Reading
pub mod Log
pub mod Answers
pub mod Size
pub mod Store
pub mod Compact
pub mod Examples
