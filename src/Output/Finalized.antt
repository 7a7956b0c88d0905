-- ===== src/Output/Finalized.antt =====
-- escalation-proxy/app/output_validation.py: `is_finalized_summary`, `parse_json_finalized_findings` and
-- `finalized_report_format`.
use sre_agent_team.Base.{
  ℕ, Bool, true, false, ◌&&◌, ◌||◌, String, Option, none, some, List, [], ◌∷◌, eqb, ◌==◌,
  if◌then◌else◌,
}
use sre_agent_team.Base.Text.{codes, strip, is_space, starts_with, contains}
use sre_agent_team.Base.Int.{ℤ, pos, leb_ℤ}
use sre_agent_team.Policy.Groups.{fold_case}
use sre_agent_team.Output.Scoring.{
  LiaisonVerdict, platform_issue, application_issue, inconclusive, LiaisonFinalReport,
}

-- `\s*\Z`
unfoldable pub only_spaces : List ℕ → Bool
only_spaces [] = true
only_spaces (c ∷ cs) = is_space c && only_spaces cs

-- The characters `expected` without regard to case, then `\s*\Z`.
unfoldable pub match_end : List ℕ → List ℕ → Bool
match_end [] cs = only_spaces cs
match_end (e ∷ es) [] = false
match_end (e ∷ es) (c ∷ cs) = eqb (fold_case c) (fold_case e) && match_end es cs

-- `\s*`, then the token and the end.
unfoldable pub match_token : List ℕ → List ℕ → Bool
match_token token [] = match_end token []
match_token token (c ∷ cs) = match_end token (c ∷ cs) || (is_space c && match_token token cs)

-- The characters `expected` without regard to case, then the token and the end.
unfoldable pub match_label : List ℕ → List ℕ → List ℕ → Bool
match_label [] token cs = match_token token cs
match_label (e ∷ es) token [] = false
match_label (e ∷ es) token (c ∷ cs) = eqb (fold_case c) (fold_case e) && match_label es token cs

-- A match at some line's beginning; `at_start` says whether a line begins here.
unfoldable pub search_label : Bool → List ℕ → List ℕ → Bool
search_label at_start token [] = false
search_label at_start token (c ∷ cs) =
    (at_start && match_label (codes "FINALIZATION_TOKEN:") token (c ∷ cs))
    || search_label (eqb c 10) token cs

-- `re.search(r"(?i)(?:^|\n)FINALIZATION_TOKEN:\s*…\s*\Z", content)`
unfoldable pub ends_with_token : String → String → Bool
unfolding only_spaces match_end match_token match_label search_label fold_case is_space
ends_with_token token content = search_label true (codes token) (codes content)

-- The findings that the code returns as a dict.
pub record Findings : Type 0 where
  pub summary : String
  pub impact : String
  pub evidence : List String
  pub likely_causes : List String
  pub recommended_actions : List String
  pub limitations : List String

-- `verdict.replace("_", " ")`
abbrev pub verdict_text : LiaisonVerdict → String
verdict_text platform_issue = "PLATFORM ISSUE"
verdict_text application_issue = "APPLICATION ISSUE"
verdict_text inconclusive = "INCONCLUSIVE"

-- `limitations or […]`
abbrev pub limitations_or_default : List String → List String
limitations_or_default [] =
    "Findings are investigation guidance; the proxy performed no remediation." ∷ []
limitations_or_default (l ∷ ls) = l ∷ ls

module _ (parse : String → Option LiaisonFinalReport) (finalization_token : String) where
  unfoldable pub is_finalized_summary : Bool → ℤ → String → Bool
  is_finalized_summary require_finalization_token best_score selected_text =
      elim (parse selected_text) [
        | some report ↦ report.finalization_token == finalization_token
        | none ↦
            if require_finalization_token
            then ends_with_token finalization_token (strip selected_text)
            else leb_ℤ (pos 40) best_score
      ]

  unfoldable pub parse_json_finalized_findings : String → Option Findings
  parse_json_finalized_findings report = elim (parse (strip report)) [
    | none ↦ none
    | some r ↦
        if r.finalization_token == finalization_token
        then some (record {
          summary = r.root_cause;
          impact = verdict_text r.verdict;
          evidence = r.evidence;
          likely_causes = r.root_cause ∷ [];
          recommended_actions = r.recommended_actions;
          limitations = limitations_or_default r.limitations;
        })
        else none
  ]

  unfoldable pub finalized_report_format : String → String
  finalized_report_format report =
      let content = strip report in
      if content == "" then "empty" else elim (parse content) [
        | some r ↦
            if r.finalization_token == finalization_token
            then "valid_json"
            else "invalid_finalization_token"
        | none ↦
            if starts_with content "{" || starts_with content "["
            then "invalid_json_schema"
            else if contains content "FINALIZATION_TOKEN:"
            then "markdown_or_text"
            else "unrecognized"
      ]
