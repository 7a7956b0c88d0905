-- ===== src/Policy/Severity.antt =====
-- escalation-proxy/app/caller_policy.py and escalation-proxy/app/authorization.py: `SEVERITY_ORDER`.
use sre_agent_team.Base.{ℕ, String, Option, none, some, ◌==◌, if◌then◌else◌}

-- `SEVERITY_ORDER.get(severity)`
unfoldable pub severity_rank : String → Option ℕ
severity_rank s =
    if s == "low"
    then some 0
    else if s == "medium"
    then some 1
    else if s == "high"
    then some 2
    else if s == "critical"
    then some 3
    else none
