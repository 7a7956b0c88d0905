-- ===== src/Http.antt =====
-- `HTTPException` and escalation-proxy/app/contracts.py, `InvestigationHTTPException`: what an endpoint
-- raises. The text of the detail is left out.
use sre_agent_team.Base.{ℕ, String, Option, none}

pub record HttpException : Type 0 where
  pub status_code : ℕ
  pub correlation_id : Option String

-- `HTTPException(status_code=…)`
abbrev pub http : ℕ → HttpException
http status_code = record { status_code = status_code; correlation_id = none }
