-- ===== src/Output/Tests.antt =====
-- escalation-proxy/app/output_validation.py: concrete texts.
use sre_agent_team.Base.{◌≡◌, refl, true, String, Option, none, List, [], ◌∷◌, string_discrete}
use sre_agent_team.Base.Text.{strip, lower, contains}
use sre_agent_team.Output.Scoring.{LiaisonFinalReport}
use sre_agent_team.Output.Selection.{best_structured_message, select_best_summary_text}
use sre_agent_team.Output.Preferred.{carries_token, select_prefers_token}

abbrev parse : String → Option LiaisonFinalReport
parse _ = none

abbrev texts : List String
texts = "done: END" ∷ []

select_prefers_token_example :
    let chosen = select_best_summary_text parse "END" ("looking" ∷ texts) in
    (carries_token parse "END" chosen.text ≡ true) × (chosen.strategy ≡ best_structured_message)
unfolding strip lower contains string_discrete
select_prefers_token_example = select_prefers_token parse "END" "looking" texts refl
