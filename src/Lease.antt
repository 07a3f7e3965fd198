-- ===== src/Lease.antt =====
-- src/protocol/lease/store.ts: one holder per slot, with an expiry and a fencing token.
pub mod Record
pub mod Directory
pub mod Operations
pub mod AnyOf
pub mod Codec
pub mod Effect
pub mod Fencing
pub mod Calls
pub mod Contract
pub mod Renewal
pub mod AnyOfLaws
pub mod Examples
