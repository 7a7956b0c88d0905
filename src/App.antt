-- ===== src/App.antt =====
-- escalation-proxy/app/main.py: what the application does around the service.
pub mod BodyLimit
pub mod Bodies
pub mod Problems
pub mod Disclosed
pub mod Mcp
pub mod Gate
pub mod Reconciliation
pub mod Completing
pub mod Rounds
pub mod Finished
pub mod Readiness
pub mod Ready
mod Tests
pub mod Transport
pub mod Callers
pub mod Endpoints
pub mod Refused
