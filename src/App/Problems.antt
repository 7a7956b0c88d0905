-- ===== src/App/Problems.antt =====
-- escalation-proxy/app/main.py: `versioned_problem_details` and `_V1_PROBLEM_CODES`.
use sre_agent_team.Base.{
  ℕ, Bool, true, false, not, String, Option, none, some, [], ◌∷◌, eqb, ◌==◌, if◌then◌else◌,
}
use sre_agent_team.Base.Dict.{Dict, lookup}
use sre_agent_team.Base.Text.{starts_with, append}
use sre_agent_team.Http.{HttpException}

-- A row of `_V1_PROBLEM_CODES`.
pub record ProblemCode : Type 0 where
  pub code : String
  pub title : String
  pub retryable : Bool

abbrev row : String → String → Bool → ProblemCode
row code title retryable = record { code = code; title = title; retryable = retryable }

unfoldable pub problem_code : ℕ → ProblemCode
problem_code status =
    if eqb status 400
    then row "invalid_request" "Invalid request" false
    else if eqb status 401
    then row "authentication_required" "Authentication required" false
    else if eqb status 403
    then row "caller_not_authorized" "Caller is not authorized" false
    else if eqb status 404
    then row "investigation_not_found" "Investigation not found" false
    else if eqb status 409
    then row "conflict" "Request conflicts with current investigation state" false
    else if eqb status 429
    then row "quota_exceeded" "Request limit exceeded" true
    else if eqb status 502
    then row "invalid_platform_response" "Platform response was invalid" false
    else if eqb status 503
    then row "platform_unavailable" "Platform service is temporarily unavailable" true
    else row "internal_error" "Service request failed" false

-- The body of the problem response.
pub record Problem : Type 0 where
  pub type : String
  pub title : String
  pub status : ℕ
  pub code : String
  pub detail : String
  pub correlation_id : String
  pub retryable : Bool

-- The response: the problem, or the detail of the exception with the headers of a legacy route.
pub data Answer : Type 0 where
  problem : ℕ → Problem → Answer
  plain : ℕ → String → Dict String → Answer

abbrev legacy_successors : Dict String
legacy_successors =
    ("/api/investigations", "/api/v1/investigations")
    ∷ ("/api/investigations/status", "/api/v1/investigations/{investigation_id}")
    ∷ ("/api/investigations/summary", "/api/v1/investigations/{investigation_id}/findings")
    ∷ []

-- The headers for a path.
unfoldable pub successor_headers : String → Dict String
unfolding lookup append
successor_headers path = elim (lookup path legacy_successors) [
  | none ↦ []
  | some successor ↦
      ("Deprecation", "true")
      ∷ ("Link", append "<" (append successor ">; rel=\"successor-version\""))
      ∷ []
]

-- `getattr(exc, "correlation_id", None) or str(uuid.uuid4())`
abbrev pub correlation_or : String → Option String → String
correlation_or fresh none = fresh
correlation_or fresh (some c) = if c == "" then fresh else c

-- `detail` is that of the exception, `fresh` the value of `uuid4`.
unfoldable pub versioned_problem_details : String → String → HttpException → String → Answer
unfolding append
versioned_problem_details path fresh exc detail =
    let row = problem_code exc.status_code in
    if not (starts_with path "/api/v1/")
    then plain exc.status_code detail (successor_headers path)
    else problem exc.status_code (record {
      type = append "https://github.com/microsoft/sre-agent-team/problems/" row.code;
      title = row.title;
      status = exc.status_code;
      code = row.code;
      detail = row.title;
      correlation_id = correlation_or fresh exc.correlation_id;
      retryable = row.retryable;
    })
