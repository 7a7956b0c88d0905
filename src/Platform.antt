-- ===== src/Platform.antt =====
-- escalation-proxy/app/platform_client.py: calling the Platform SRE Agent.
pub mod Breaker
pub mod Request
pub mod Retries
pub mod Circuit
pub mod Wedged
mod Tests
