-- ===== src/Service/Disclosure.antt =====
-- escalation-proxy/app/investigation_service.py: what `get_summary` lets a caller read.
use sre_agent_team.Base.{
  string_discrete, subst, false, refl, ℕ, ◌≡◌, ◌⊎◌, inl, inr, Bool, not, String, Option, none, some,
  List, ◌==◌, arith, Bool-cases, Option-cases,
}
use sre_agent_team.Base.Fallible.{Result, ok, Result-cases}
use sre_agent_team.Base.Text.{strip, upper}
use sre_agent_team.Base.Int.{ℤ}
use sre_agent_team.Http.{HttpException}
use sre_agent_team.Registry.Record.{InvestigationRecord}
use sre_agent_team.Output.Selection.{Selection}
use sre_agent_team.Output.Finalized.{Findings}
use sre_agent_team.Service.Interfaces.{PolicyOps, RegistryOps, Config, GetRequest, Caller}
use sre_agent_team.Service.Fetch.{Message, agent_texts, last_messages, has_texts}
use sre_agent_team.Service.Poll.{readable_record}
use sre_agent_team.Service.Responses.{
  FindingsResponse, findings_of, findings_response, respond, v1_findings_response,
}
use sre_agent_team.Service.Summary.{
  SummaryReply, published, public_findings, strategy_text, complete_summary, summarize, get_summary,
}

abbrev pub platform_findings : Findings
platform_findings =
    published
      "A platform issue was identified. Please engage the platform team for investigation and remediation."
      "PLATFORM ISSUE" "Engage the platform team's on-call or support process."

abbrev pub application_findings : Findings
application_findings =
    published
      "No platform issue was identified. Continue investigation within the authorized workload resource group."
      "APPLICATION ISSUE" "Engage the workload team's on-call or support process."

abbrev pub inconclusive_findings : Findings
inconclusive_findings =
    published
      "The platform investigation was inconclusive. Engage the platform team for next steps."
      "INCONCLUSIVE" "Engage the platform team's on-call or support process."

-- One of three fixed findings.
abbrev pub IsFixed : Findings → Type 0
IsFixed f = (f ≡ platform_findings) ⊎ (f ≡ application_findings) ⊎ (f ≡ inconclusive_findings)

public_findings-IsFixed : (f : Findings) → IsFixed (public_findings f)
unfolding public_findings
public_findings-IsFixed f = elim (Bool-cases (upper (strip f.impact) == "PLATFORM ISSUE")) [
  | inl p ↦ inl (ground arith)
  | inr n ↦ elim (Bool-cases (upper (strip f.impact) == "APPLICATION ISSUE")) [
    | inl a ↦ inr (inl (ground arith))
    | inr m ↦ inr (inr (ground arith))
  ]
]

-- A reply that says "pending" or "running" and no more, or one that says "completed" with one of the three fixed
-- findings and the summary in it.
abbrev pub DisclosesVerdict : SummaryReply → Type 0
DisclosesVerdict r =
    (((r.status ≡ "pending") ⊎ (r.status ≡ "running")) × (r.findings ≡ none) × (r.summary ≡ ""))
    ⊎ ((f : Findings) × IsFixed f
        × (r.status ≡ "completed")
        × (r.findings ≡ some f)
        × (r.summary ≡ f.summary))

not_completed :
    (status : String) → (status ≡ "pending") ⊎ (status ≡ "running") → status == "completed" ≡ false
unfolding string_discrete
not_completed status (inl e) = rw e refl
not_completed status (inr e) = rw e refl

module _ {W : Type 0} (policies : PolicyOps W) (registry : RegistryOps W) (others : ℕ → W → W)
    (c : Config) (select : List String → Selection) (is_finalized : ℤ → String → Bool)
    (redact : String → String) (parse_findings : String → Option Findings) where
  complete_summary-DisclosesVerdict :
      (id : String) (caller : Caller) (strategy : String) (redacted : Bool) (f : Findings) (w : W)
      (r : SummaryReply)
      → (complete_summary policies registry others c select is_finalized redact parse_findings id
          caller strategy redacted f w).0
        ≡ ok r
      → DisclosesVerdict r
  unfolding complete_summary
  complete_summary-DisclosesVerdict id caller strategy redacted f w r h =
      inr (public_findings f, public_findings-IsFixed f, ground arith, ground arith, ground arith)

  summarize-DisclosesVerdict :
      (id : String) (caller : Caller) (i : InvestigationRecord) (texts : List String) (w : W)
      (r : SummaryReply)
      → (summarize policies registry others c select is_finalized redact parse_findings id caller i
          texts w).0
        ≡ ok r
      → DisclosesVerdict r
  unfolding summarize
  summarize-DisclosesVerdict id caller i texts w r h =
      let chosen = select texts in
      let report = redact chosen.text in
      elim (Bool-cases (has_texts texts)) [
        | inr f ↦ inl (inl (ground arith), ground arith, ground arith)
        | inl t ↦ elim (Bool-cases (is_finalized chosen.best_score chosen.text)) [
          | inr f ↦ inl (inr (ground arith), ground arith, ground arith)
          | inl t' ↦ elim (Option-cases (parse_findings report)) [
            | inl e ↦ absurd (ground arith)
            | inr f ↦
                complete_summary-DisclosesVerdict id caller (strategy_text chosen.strategy)
                  (not (report == chosen.text)) f.0 w r (ground arith)
          ]
        ]
      ]

  -- Whatever the agents wrote, and however the report is chosen, redacted and read, a reply of
  -- `get_summary` says "pending" or "running", with no findings and an empty summary, or says
  -- "completed", with one of three fixed findings and the summary in it: in these three fields, which
  -- are the reply, nothing but the verdict reaches a caller.
  pub summary-DisclosesVerdict :
      (messages : Result HttpException (List Message)) (req : GetRequest) (caller : Caller) (w : W)
      (r : SummaryReply)
      → (get_summary policies registry others c select is_finalized redact parse_findings messages
          req caller w).0
        ≡ ok r
      → DisclosesVerdict r
  unfolding get_summary
  summary-DisclosesVerdict messages req caller w r h =
      let found = readable_record policies registry others c req.investigation_id caller w in
      elim (Result-cases found.0) [
        | inr e ↦ absurd (ground arith)
        | inl i ↦
            let polled =
              registry.record_summary_poll req.investigation_id caller.oid caller.appid
                (others 2 found.1) in
            elim (Result-cases messages) [
              | inr e ↦ absurd (ground arith)
              | inl ms ↦
                  summarize-DisclosesVerdict req.investigation_id caller i.0
                    (agent_texts (last_messages c.max_agent_messages ms.0)) polled.1 r
                    (ground arith)
            ]
      ]

  -- A response of `v1_findings_response` to a reply of `get_summary` has one of the three fixed findings.
  pub v1_findings-IsFixed :
      (messages : Result HttpException (List Message)) (req : GetRequest) (caller : Caller)
      (w w' : W) (reply : SummaryReply) (id : String) (completed_at : ℕ) (r : FindingsResponse)
      → (get_summary policies registry others c select is_finalized redact parse_findings messages
          req caller w).0
        ≡ ok reply
      → (v1_findings_response policies registry others c parse_findings id reply caller completed_at
          w').0
        ≡ ok r
      → IsFixed r.findings
  unfolding v1_findings_response respond findings_response findings_of
  v1_findings-IsFixed messages req caller w w' reply id completed_at r summarized responded =
      elim (summary-DisclosesVerdict messages req caller w reply summarized) [
        | inl open_reply ↦ absurd (ground (arith, not_completed reply.status open_reply.0))
        | inr (f, fixed, _, has, _) ↦ subst (λ g. IsFixed g) (ground arith) fixed
      ]
