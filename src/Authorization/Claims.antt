-- ===== src/Authorization/Claims.antt =====
-- escalation-proxy/app/authorization.py: `CallerIdentity` and `validate_requested_severity`.
use sre_agent_team.Base.{Bool, String, Option, none, some, ltb, if◌then◌else◌}
use sre_agent_team.Base.Fallible.{Result, ok, err}
use sre_agent_team.Base.Text.{strip, lower}
use sre_agent_team.Policy.Json.{Json, null, text, Fields, get_field}
use sre_agent_team.Policy.Severity.{severity_rank}

pub record SeveritySettings : Type 0 where
  pub severity_claim : String
  pub require_severity_claim : Bool

pub data SeverityError : Type 0 where
  unknown_level missing_claim invalid_claim exceeds_token_limit : SeverityError

-- The request against the limit that the token claims, both normalized.
unfoldable pub check_limit : String → String → Result SeverityError String
check_limit normalized maximum = elim (severity_rank normalized) [
  | none ↦ err unknown_level
  | some requested ↦ elim (severity_rank maximum) [
    | none ↦ err invalid_claim
    | some limit ↦ if ltb limit requested then err exceeds_token_limit else ok normalized
  ]
]

unfoldable pub without_claim : SeveritySettings → String → Result SeverityError String
without_claim c normalized = if c.require_severity_claim then err missing_claim else ok normalized

-- The tests after the severity is known to be a level.
unfoldable pub against_claim : SeveritySettings → String → Option Json → Result SeverityError String
against_claim c normalized none = without_claim c normalized
against_claim c normalized (some null) = without_claim c normalized
against_claim c normalized (some (text claim)) = check_limit normalized (lower (strip claim))
against_claim c normalized (some _) = err invalid_claim

unfoldable pub validate_requested_severity :
    SeveritySettings → String → Fields → Result SeverityError String
validate_requested_severity c severity claims =
    let normalized = lower (strip severity) in
    elim (severity_rank normalized) [
      | none ↦ err unknown_level
      | some _ ↦ against_claim c normalized (get_field c.severity_claim claims)
    ]
