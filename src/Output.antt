-- ===== src/Output.antt =====
-- escalation-proxy/app/output_validation.py: choosing the platform's final report. The validation of a
-- JSON report by pydantic is a parameter.
pub mod Scoring
pub mod Selection
pub mod Finalized
pub mod Ranking
pub mod Preferred
mod Tests
