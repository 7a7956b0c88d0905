-- ===== src/Policy.antt =====
-- escalation-proxy/app/caller_policy.py: which callers may escalate, how severely and for which
-- resource groups.
pub mod Json
pub mod Groups
pub mod GroupIds
pub mod Severity
pub mod Store
pub mod Loading
pub mod Refresh
pub mod Access
pub mod Normal
pub mod Loaded
pub mod Confirmed
pub mod Freshness
mod Tests
