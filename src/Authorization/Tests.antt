-- ===== src/Authorization/Tests.antt =====
-- escalation-proxy/app/authorization.py: a concrete token and severity.
use sre_agent_team.Base.{◌≡◌, ◌≢◌, ◌↔◌, true, String, none, some}
use sre_agent_team.Base.Fallible.{Result, ok}
use sre_agent_team.Base.Text.{strip, lower, starts_with, drop_text}
use sre_agent_team.Policy.Json.{Fields, text, array, cons, nil, field, end, get_field}
use sre_agent_team.Policy.Severity.{severity_rank}
use sre_agent_team.Authorization.Tokens.{JwtError, extract_and_validate_token}
use sre_agent_team.Authorization.Claims.{SeveritySettings, validate_requested_severity}
use sre_agent_team.Authorization.Accepted.{
  IsEscalationCaller, ClaimAllows, header_accepted_iff, severity_accepted_iff,
}

abbrev claims : Fields
claims = field "roles" (array (cons (text "EscalationCaller") nil)) (
    field "appid" (text "app")
      (field "oid" (text "owner") (field "max_severity" (text "High") end)))

abbrev decode : String → Result JwtError Fields
decode _ = ok claims

abbrev header : String
header = "Bearer abc"

abbrev level : String
level = "medium"

abbrev severities : SeveritySettings
severities = record { severity_claim = "max_severity"; require_severity_claim = true }

header_accepted_iff_example :
    (extract_and_validate_token decode (some header) ≡ ok ("abc", claims)) ↔ (
      (header ≢ "")
      × (starts_with header "Bearer " ≡ true)
      × ("abc" ≡ strip (drop_text 7 header))
      × (decode "abc" ≡ ok claims)
      × IsEscalationCaller claims)
header_accepted_iff_example = header_accepted_iff decode header "abc" claims

severity_accepted_iff_example :
    (validate_requested_severity severities " Medium" claims ≡ ok level) ↔ (
      (level ≡ lower (strip " Medium"))
      × (severity_rank level ≢ none)
      × ClaimAllows severities level (get_field "max_severity" claims))
severity_accepted_iff_example = severity_accepted_iff severities " Medium" level claims
