-- ===== src/Service.antt =====
-- escalation-proxy/app/investigation_service.py: `InvestigationService`, over any registry and any
-- caller policy store.
pub mod Interfaces
pub mod Request
pub mod Create
pub mod Fetch
pub mod Poll
pub mod Summary
pub mod Responses
pub mod Memory
pub mod Admission
pub mod Slots
pub mod Held
pub mod Once
pub mod Calls
pub mod Waiting
pub mod Disclosure
mod Samples
mod Tests
