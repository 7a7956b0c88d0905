-- ===== src/Registry.antt =====
-- escalation-proxy/app/investigation_registry.py, `InvestigationRegistry`: the in-memory registry.
pub mod Record
pub mod Reads
pub mod Admission
pub mod Lifecycle
pub mod Sweeps
pub mod Quota
pub mod Replay
pub mod Ownership
pub mod Polls
pub mod Retention
pub mod Sweeping
pub mod Leases
pub mod Invariant
pub mod Preservation
pub mod Traces
pub mod Terminal
pub mod Samples
mod Tests
