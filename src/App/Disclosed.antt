-- ===== src/App/Disclosed.antt =====
-- escalation-proxy/app/main.py: what the problem responses of the versioned routes tell.
use sre_agent_team.Base.{ℕ, ◌≡◌, refl, true, ◌||◌, String, eqb, arith}
use sre_agent_team.Base.Text.{starts_with, append}
use sre_agent_team.Http.{HttpException}
use sre_agent_team.App.Problems.{
  Problem, problem, problem_code, correlation_or, versioned_problem_details,
}

retryable_lem : (status : ℕ) → (problem_code status).retryable ≡ (eqb status 429 || eqb status 503)
unfolding problem_code
retryable_lem status = ground arith

-- On a versioned route, the answer to an exception is a problem whose content does not depend on the exception's
-- detail: it has the exception's status, allows a retry exactly where that is 429 or 503, as the table
-- in the code says and not that of the service contract, which allows one for 502, 504 and an
-- investigation that has not completed as well, and its detail is the fixed title of its code.
pub problem_hides_detail :
    (path fresh : String) (exc : HttpException) (detail other : String)
    → starts_with path "/api/v1/" ≡ true
    → (versioned_problem_details path fresh exc detail
        ≡ versioned_problem_details path fresh exc other)
      × ((p : Problem) × (versioned_problem_details path fresh exc detail
            ≡ problem exc.status_code p)
          × (p.status ≡ exc.status_code)
          × (p.retryable ≡ (eqb exc.status_code 429 || eqb exc.status_code 503))
          × (p.detail ≡ (problem_code exc.status_code).title))
unfolding versioned_problem_details
problem_hides_detail path fresh exc detail other v1 = (
  ground arith,
  (
    record {
      type =
          append "https://github.com/microsoft/sre-agent-team/problems/"
            (problem_code exc.status_code).code;
      title = (problem_code exc.status_code).title;
      status = exc.status_code;
      code = (problem_code exc.status_code).code;
      detail = (problem_code exc.status_code).title;
      correlation_id = correlation_or fresh exc.correlation_id;
      retryable = (problem_code exc.status_code).retryable;
    },
    ground arith,
    refl,
    retryable_lem exc.status_code,
    refl,
  ),
)
