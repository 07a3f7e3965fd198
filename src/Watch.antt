-- ===== src/Watch.antt =====
-- src/odin-watch: the classifier of screen snapshots.
pub mod Classifier
pub mod Rules
pub mod Verdicts
pub mod Snapshot
pub mod Probes
pub mod Soundness
pub mod Examples
