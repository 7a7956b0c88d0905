-- ===== src/Table.antt =====
-- escalation-proxy/app/investigation_registry.py, `TableStorageInvestigationRegistry`: the registry on
-- Azure Table storage. The table client is a parameter.
pub mod Entity
pub mod Client
pub mod Backend
pub mod RoundTrip
pub mod Counter
pub mod Reads
pub mod Admission
pub mod Lifecycle
pub mod Sweeps
pub mod Laws
pub mod Stored
pub mod Represents
pub mod Effects
pub mod Agreement
pub mod Finding
pub mod Rounds
pub mod Polling
pub mod Updating
pub mod Polled
pub mod Recorded
pub mod Decrement
pub mod Ended
pub mod Completion
pub mod Completed
pub mod Slots
pub mod Calls
pub mod Refinement
mod Samples
mod Tests
pub mod Keys
pub mod Recount
pub mod Reserved
pub mod Keyed
pub mod Conflicts
