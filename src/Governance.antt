-- ===== src/Governance.antt =====
-- src/protocol/governance.ts: the evaluators over the append-only event registry.
pub mod Events
pub mod Attempts
pub mod Depth
pub mod Overhead
pub mod Findings
pub mod Authority
pub mod Log
pub mod OneTerminal
pub mod Calls
pub mod Blocking
pub mod Ceiling
pub mod Walking
pub mod Layers
pub mod Activity
pub mod Closing
pub mod Examples
pub mod Receipts
