-- ===== src/Authorization.antt =====
-- escalation-proxy/app/authorization.py: `CallerAuthorization`. The decoding of a token, which checks
-- its signature, audience and issuer, is a parameter.
pub mod Tokens
pub mod Claims
pub mod Accepted
pub mod Wiring
mod Tests
