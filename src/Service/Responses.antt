-- ===== src/Service/Responses.antt =====
-- escalation-proxy/app/investigation_service.py: `v1_lifecycle_response` and `v1_findings_response`. Times are
-- in the registry's clock units.
use sre_agent_team.Base.{ℕ, max, not, String, Option, none, some, ◌==◌, if◌then◌else◌}
use sre_agent_team.Base.Fallible.{Result, ok, err}
use sre_agent_team.Http.{HttpException, http}
use sre_agent_team.Registry.Record.{InvestigationRecord}
use sre_agent_team.Output.Finalized.{Findings}
use sre_agent_team.Service.Interfaces.{PolicyOps, RegistryOps, Config, Caller}
use sre_agent_team.Service.Poll.{authorize_read, readable_record, lookup_refusal}
use sre_agent_team.Service.Summary.{SummaryReply}

pub record LifecycleResponse : Type 0 where
  pub investigation_id : String
  pub status : String
  pub created_at : ℕ
  pub updated_at : ℕ
  pub expires_at : ℕ
  pub correlation_id : String
  pub poll_after_seconds : ℕ

pub record FindingsResponse : Type 0 where
  pub investigation_id : String
  pub created_at : ℕ
  pub completed_at : ℕ
  pub expires_at : ℕ
  pub correlation_id : String
  pub findings : Findings

-- The fields of the two responses. That Pydantic accepts them is not modelled: an id that is no UUID would raise there.
unfoldable pub lifecycle : Config → InvestigationRecord → String → ℕ → LifecycleResponse
lifecycle c r status updated_at = record {
  investigation_id = r.investigation_id;
  status = status;
  created_at = r.created_at;
  updated_at = updated_at;
  expires_at = r.expires_at;
  correlation_id = r.request_correlation_id;
  poll_after_seconds = max c.min_status_poll_interval_seconds c.status_poll_interval_seconds;
}

unfoldable pub findings_response : InvestigationRecord → Findings → ℕ → FindingsResponse
findings_response r findings completed_at = record {
  investigation_id = r.investigation_id;
  created_at = r.created_at;
  completed_at = completed_at;
  expires_at = r.expires_at;
  correlation_id = r.request_correlation_id;
  findings = findings;
}

-- `result.get("findings") or self._parse_finalized_findings(result.get("summary", ""))`
unfoldable pub findings_of : (String → Option Findings) → SummaryReply → Option Findings
findings_of parse_findings result = elim result.findings [
  | some f ↦ some f
  | none ↦ parse_findings result.summary
]

module _ {W : Type 0} (policies : PolicyOps W) (registry : RegistryOps W) (others : ℕ → W → W)
    (c : Config) where
  -- `wall_time` is the clock when the record is found.
  unfoldable pub v1_lifecycle_response :
      String → String → Caller → ℕ → W → Result HttpException LifecycleResponse × W
  v1_lifecycle_response id status caller wall_time w =
      let (found, w') = readable_record policies registry others c id caller w in
      elim found [ err e ↦ (err e, w') | ok r ↦ (ok (lifecycle c r status wall_time), w') ]

  -- The end of `v1_findings_response`, with the findings.
  unfoldable pub respond :
      String → Findings → Caller → ℕ → W → Result HttpException FindingsResponse × W
  respond id findings caller completed_at w =
      let (found, w') = registry.get_investigation id caller.oid caller.appid (others 1 w) in
      elim found [
        | err e ↦ (err (lookup_refusal e), w')
        | ok r ↦ (ok (findings_response r findings completed_at), w')
      ]

  unfoldable pub v1_findings_response :
      (String → Option Findings)
      → String
      → SummaryReply
      → Caller
      → ℕ
      → W
      → Result HttpException FindingsResponse × W
  v1_findings_response parse_findings id result caller completed_at w =
      let (admission, w') = authorize_read policies registry others c caller w in
      elim admission [
        | err e ↦ (err e, w')
        | ok _ ↦
            if not (result.status == "completed")
            then (err (http 409), w')
            else elim (findings_of parse_findings result) [
              | none ↦ (err (http 502), w')
              | some findings ↦ respond id findings caller completed_at w'
            ]
      ]
