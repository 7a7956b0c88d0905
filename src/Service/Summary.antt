-- ===== src/Service/Summary.antt =====
-- escalation-proxy/app/investigation_service.py: `get_summary` and `_public_findings`,
-- over any callables for the choice and the reading of the report.
use sre_agent_team.Base.{
  ℕ, Bool, true, not, String, Option, none, some, List, [], ◌∷◌, ◌==◌, if◌then◌else◌,
}
use sre_agent_team.Base.Fallible.{Result, ok, err}
use sre_agent_team.Base.Text.{strip, upper}
use sre_agent_team.Base.Int.{ℤ}
use sre_agent_team.Http.{HttpException, http}
use sre_agent_team.Registry.Record.{
  InvestigationRecord, summary_rate_limit, maximum_summary_polls, completed,
}
use sre_agent_team.Output.Selection.{
  Selection, Strategy, no_text, best_structured_message, recent_composite,
}
use sre_agent_team.Output.Finalized.{Findings}
use sre_agent_team.Service.Interfaces.{
  PolicyOps, RegistryOps, Raised, value_error, uncaught, Config, GetRequest, Caller,
}
use sre_agent_team.Service.Fetch.{Message, agent_texts, has_texts, last_messages}
use sre_agent_team.Service.Poll.{has_no_outcome, readable_record}

-- The dict that `get_summary` returns.
pub record SummaryReply : Type 0 where
  pub status : String
  pub summary : String
  pub findings : Option Findings

unfoldable pub published : String → String → String → Findings
published summary impact action = record {
  summary = summary;
  impact = impact;
  evidence = [];
  likely_causes = [];
  recommended_actions = action ∷ [];
  limitations = "Platform investigation details are restricted to the platform team." ∷ [];
}

unfoldable pub public_findings : Findings → Findings
public_findings findings =
    let verdict = upper (strip findings.impact) in
    if verdict == "PLATFORM ISSUE"
    then published
        "A platform issue was identified. Please engage the platform team for investigation and remediation."
        verdict "Engage the platform team's on-call or support process."
    else if verdict == "APPLICATION ISSUE"
    then published
        "No platform issue was identified. Continue investigation within the authorized workload resource group."
        verdict "Engage the workload team's on-call or support process."
    else published
        "The platform investigation was inconclusive. Engage the platform team for next steps."
        "INCONCLUSIVE" "Engage the platform team's on-call or support process."

abbrev pub strategy_text : Strategy → String
strategy_text no_text = "none"
strategy_text best_structured_message = "best_structured_message"
strategy_text recent_composite = "recent_composite"

unfoldable pub summary_poll_refusal : InvestigationRecord → Raised → HttpException
summary_poll_refusal r (value_error summary_rate_limit) = record {
  status_code = 429;
  correlation_id = some r.request_correlation_id;
}
summary_poll_refusal r (value_error maximum_summary_polls) = record {
  status_code = 429;
  correlation_id = some r.request_correlation_id;
}
summary_poll_refusal r (value_error _) = http 404
summary_poll_refusal r uncaught = http 500

abbrev pub no_summary : String → SummaryReply
no_summary status = record { status = status; summary = ""; findings = none }

module _ {W : Type 0} (policies : PolicyOps W) (registry : RegistryOps W) (others : ℕ → W → W)
    (c : Config) (select : List String → Selection) (is_finalized : ℤ → String → Bool)
    (redact : String → String) (parse_findings : String → Option Findings) where
  -- The two calls that store the end, and the reply.
  unfoldable pub complete_summary :
      String → Caller → String → Bool → Findings → W → Result HttpException SummaryReply × W
  complete_summary id caller strategy redacted findings w =
      let (result, w') = registry.complete_investigation id caller.appid completed (others 3 w) in
      elim result [
        | err _ ↦ (err (http 500), w')
        | ok _ ↦
            let (stored, w'') =
              registry.record_findings_metadata id caller.appid true strategy redacted
                (others 4 w') in
            elim stored [
              | err _ ↦ (err (http 500), w'')
              | ok _ ↦ (
                ok (record {
                  status = "completed";
                  summary = (public_findings findings).summary;
                  findings = some (public_findings findings);
                }),
                w'',
              )
            ]
      ]

  -- The reply from the agent's texts.
  unfoldable pub summarize :
      String
      → Caller
      → InvestigationRecord
      → List String
      → W
      → Result HttpException SummaryReply × W
  summarize id caller r texts w =
      let chosen = select texts in
      let report = redact chosen.text in
      if not (has_texts texts)
      then (ok (no_summary "pending"), w)
      else if not (is_finalized chosen.best_score chosen.text)
      then (ok (no_summary "running"), w)
      else elim (parse_findings report) [
        | none ↦
            (err (record { status_code = 502; correlation_id = some r.request_correlation_id }), w)
        | some findings ↦
            complete_summary id caller (strategy_text chosen.strategy) (not (report == chosen.text))
              findings w
      ]

  unfoldable pub get_summary :
      Result HttpException (List Message)
      → GetRequest
      → Caller
      → W
      → Result HttpException SummaryReply × W
  get_summary messages req caller w =
      let (found, w') = readable_record policies registry others c req.investigation_id caller w in
      elim found [
        | err e ↦ (err e, w')
        | ok r ↦
            if has_no_outcome r
            then (
              err (record { status_code = 409; correlation_id = some r.request_correlation_id }),
              w',
            )
            else (let (polled, w'') =
                  registry.record_summary_poll req.investigation_id caller.oid caller.appid
                    (others 2 w') in
                elim polled [
                  | err e ↦ (err (summary_poll_refusal r e), w'')
                  | ok _ ↦ elim messages [
                    | err e ↦ (err e, w'')
                    | ok ms ↦
                        summarize req.investigation_id caller r
                          (agent_texts (last_messages c.max_agent_messages ms)) w''
                  ]
                ])
      ]
