-- ===== src/App/Endpoints.antt =====
-- escalation-proxy/app/main.py: the endpoints of the legacy and of the versioned HTTP contract. The headers of the
-- legacy answers, and what Pydantic refuses before an endpoint is called, are left out.
use sre_agent_team.Base.{String, Option}
use sre_agent_team.Base.Fallible.{Result, ok, err}
use sre_agent_team.Base.Int.{ℤ}
use sre_agent_team.Http.{HttpException}
use sre_agent_team.Service.Interfaces.{CreateRequest, GetRequest, Caller}
use sre_agent_team.Service.Request.{Created}
use sre_agent_team.Service.Fetch.{Status, pending, running, is_completed, is_failed}
use sre_agent_team.Service.Summary.{SummaryReply}
use sre_agent_team.Service.Responses.{LifecycleResponse, FindingsResponse}

-- A call that may raise; `W` is what it changes.
abbrev pub Call : Type 0 → Type 0 → Type 0
Call W A = W → Result HttpException A × W

infixl 5 ◌>>=◌
abbrev pub ◌>>=◌ : {W A B : Type 0} → Call W A → (A → Call W B) → Call W B
(m >>= k) w = let (r, w') = m w in elim r [ ok a ↦ k a w' | err e ↦ (err e, w') ]

-- The functions that the endpoints call.
pub record Service (W : Type 0) : Type 0 where
  pub authenticate : Option String → Call W Caller
  pub create_investigation : CreateRequest → Caller → String → Call W Created
  pub get_status : GetRequest → Caller → Call W Status
  pub get_summary : GetRequest → Caller → Call W SummaryReply
  pub v1_lifecycle_response : String → String → Caller → Call W LifecycleResponse
  pub v1_findings_response : String → SummaryReply → Caller → Call W FindingsResponse

-- `result["status"]`
abbrev pub status_text : Status → String
status_text pending = "pending"
status_text running = "running"
status_text is_completed = "completed"
status_text is_failed = "failed"

-- `CreateInvestigationV1Request`
pub record CreateV1Request : Type 0 where
  pub description : String
  pub caller_label : String
  pub resource_group_id : String
  pub severity : String
  pub context : String

-- The request of the legacy contract that a versioned one becomes.
abbrev pub legacy_request : CreateV1Request → CreateRequest
legacy_request req = record {
  description = req.description;
  workload_name = req.caller_label;
  resource_group_id = req.resource_group_id;
  severity = req.severity;
  context = req.context;
}

module _ {W : Type 0} (s : Service W) where
  unfoldable pub create_endpoint : CreateRequest → Option String → Call W Created
  create_endpoint req authorization = do
    caller ← s.authenticate authorization
    s.create_investigation req caller ""

  unfoldable pub create_v1_endpoint :
      CreateV1Request → Option String → String → Call W LifecycleResponse
  create_v1_endpoint req authorization idempotency_key = do
    caller ← s.authenticate authorization
    created ← s.create_investigation (legacy_request req) caller idempotency_key
    s.v1_lifecycle_response created.investigation_id created.status caller

  unfoldable pub status_endpoint : GetRequest → Option String → Call W Status
  status_endpoint req authorization = do
    caller ← s.authenticate authorization
    s.get_status req caller

  unfoldable pub status_v1_endpoint : String → ℤ → Option String → Call W LifecycleResponse
  status_v1_endpoint investigation_id wait_seconds authorization = do
    caller ← s.authenticate authorization
    result ←
        s.get_status (record { investigation_id = investigation_id; wait_seconds = wait_seconds })
          caller
    s.v1_lifecycle_response investigation_id (status_text result) caller

  unfoldable pub findings_v1_endpoint : String → Option String → Call W FindingsResponse
  findings_v1_endpoint investigation_id authorization = do
    caller ← s.authenticate authorization
    result ←
        s.get_summary (record { investigation_id = investigation_id; wait_seconds = ℤ.pos 0 })
          caller
    s.v1_findings_response investigation_id result caller

  unfoldable pub summary_endpoint : GetRequest → Option String → Call W SummaryReply
  summary_endpoint req authorization = do
    caller ← s.authenticate authorization
    s.get_summary req caller
