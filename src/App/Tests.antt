-- ===== src/App/Tests.antt =====
-- escalation-proxy/app/main.py: the theorems on the application, applied to concrete requests.
use sre_agent_team.Base.{
  Option, String, ◌≡◌, ◌⊎◌, refl, true, ◌||◌, some, none, List, [], ◌∷◌, eqb, ◌==◌, string_discrete,
}
use sre_agent_team.Base.Fallible.{Result, ok, err}
use sre_agent_team.Base.Dict.{lookup}
use sre_agent_team.Base.Int.{ℤ}
use sre_agent_team.Base.Text.{starts_with}
use sre_agent_team.Http.{HttpException, http}
use sre_agent_team.Policy.Json.{Json, text, end, field}
use sre_agent_team.Registry.Record.{Registry, completed, defaults}
use sre_agent_team.Registry.Samples.{running}
use sre_agent_team.Registry.Sweeps.{
  sweep, claim_reconcilable_investigations, release_stale_uncertain_reservations, skips_release,
  skips_claim,
}
use sre_agent_team.Service.Interfaces.{Caller}
use sre_agent_team.App.BodyLimit.{Scope, buffered, limit_body, declared_too_large}
use sre_agent_team.App.Bodies.{sent_as, body_whole_or_refused}
use sre_agent_team.App.Problems.{Problem, problem, problem_code, versioned_problem_details}
use sre_agent_team.App.Disclosed.{problem_hides_detail}
use sre_agent_team.App.Mcp.{McpRequest, Calls, mcp_handler}
use sre_agent_team.App.Gate.{CalledBy, service_reached_by-CalledBy}
use sre_agent_team.App.Reconciliation.{reconcile, terminal_of}
use sre_agent_team.App.Completing.{Freed}
use sre_agent_team.App.Rounds.{Round, memory_ops}
use sre_agent_team.App.Finished.{finished_investigation-Freed}
use sre_agent_team.App.Readiness.{Cache, Dependencies}
use sre_agent_team.App.Transport.{as_caller, mcp_app}
use sre_agent_team.App.Callers.{RanFor, tool_runs-RanFor}

abbrev post : Scope
post = record { kind = "http"; method = "POST"; headers = ("host", "proxy") ∷ [] }

body_whole_or_refused_example :
    limit_body (λ s. none) 4 post (sent_as ((1 ∷ 2 ∷ []) ∷ []) (3 ∷ [])) ≡ buffered (1 ∷ 2 ∷ 3 ∷ [])
unfolding declared_too_large lookup string_discrete
body_whole_or_refused_example =
    body_whole_or_refused (λ s. none) 4 post ((1 ∷ 2 ∷ []) ∷ []) (3 ∷ []) refl refl

problem_hides_detail_example :
    (versioned_problem_details "/api/v1/investigations" "c-2" (http 429) "9 of 9"
      ≡ versioned_problem_details "/api/v1/investigations" "c-2" (http 429) "no")
    × ((p : Problem) × (versioned_problem_details "/api/v1/investigations" "c-2" (http 429) "9 of 9"
          ≡ problem 429 p)
        × (p.status ≡ 429)
        × (p.retryable ≡ (eqb 429 429 || eqb 429 503))
        × (p.detail ≡ (problem_code 429).title))
unfolding starts_with
problem_hides_detail_example =
    problem_hides_detail "/api/v1/investigations" "c-2" (http 429) "9 of 9" "no" refl

abbrev someone : Caller
someone = record { claims = end; oid = "owner"; appid = "app" }

-- The endpoints count their calls.
abbrev counted : Calls (List String)
counted = record {
  authenticate = λ a w. (ok someone, w);
  create_request = λ j. none;
  get_request = λ j. some (record { investigation_id = "i-1"; wait_seconds = ℤ.pos 0 });
  create_investigation = λ r c w. (ok (text "created"), "create" ∷ w);
  get_status = λ r c w. (ok (text "running"), "status" ∷ w);
  get_summary = λ r c w. (ok (text "none"), "summary" ∷ w);
  dumps = λ j. "{}";
  str = λ j. "";
}

abbrev call : McpRequest
call = record {
  jsonrpc = "2.0";
  id = text "1";
  method = "tools/call";
  params = field "name" (text "get_investigation_status") end;
}

service_reached_by-CalledBy_example :
    let w = (mcp_handler counted call none []).1 in
    (w ≡ [])
    ⊎ (w ≡ [])
    ⊎ ((caller : Caller) × ((counted.authenticate none []).0 ≡ ok caller)
        × ((call.method == "tools/call") ≡ true)
        × CalledBy counted caller [] w)
service_reached_by-CalledBy_example = service_reached_by-CalledBy counted call none []

abbrev one : Registry
one = record { records = ("i-1", running) ∷ []; workload_investigations = [] }

abbrev round : Round
round = record {
  settings = defaults;
  platform = λ r. some "completed";
  complete_time = 500;
  limit = 10;
  grace_seconds = 900;
  release_time = 500;
  owner = "proxy-1";
  lease_seconds = 55;
  claim_time = 500;
  cleanup_limit = 100;
}

finished_investigation-Freed_example : Freed "i-1" (reconcile (memory_ops round) one)
unfolding sweep lookup claim_reconcilable_investigations release_stale_uncertain_reservations
    skips_release skips_claim string_discrete terminal_of
finished_investigation-Freed_example =
    finished_investigation-Freed round one [] []
      (record running {
        reconciliation_lease_owner = "proxy-1";
        reconciliation_lease_expires_at = 555;
      })
      "completed" completed (refl, tt) (refl, tt) refl refl refl

abbrev healthy : Dependencies (List String)
healthy = record {
  caller_policy = λ w. (true, "policy" ∷ w);
  registry = λ w. (true, "registry" ∷ w);
  platform_identity = λ w. (true, "identity" ∷ w);
  available = λ w. true;
}

abbrev never : Cache
never = record { cached_at = 0; cached_failure = none }

abbrev endpoint : Caller → List String → Result HttpException Json × List String
endpoint caller w = (ok (text caller.oid), "status" ∷ w)

abbrev authenticate : Option String → List String → Result HttpException Caller × List String
authenticate none w = (err (http 401), w)
authenticate (some token) w = (ok someone, "token" ∷ w)

tool_runs-RanFor_example :
    let (response, (context, w)) =
      mcp_app authenticate (as_caller endpoint) "http" "POST" (some "Bearer t") (none, []) in
    (context ≡ none)
    × ((w ≡ [])
        ⊎ (w ≡ "token" ∷ [])
        ⊎ ((caller : Caller) × ((authenticate (some "Bearer t") []).0 ≡ ok caller)
            × RanFor authenticate endpoint caller ("token" ∷ []) response w))
tool_runs-RanFor_example = tool_runs-RanFor authenticate endpoint "http" "POST" (some "Bearer t") []
