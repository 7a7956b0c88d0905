-- ===== src/Output/Scoring.antt =====
-- escalation-proxy/app/output_validation.py: `normalize_status_value` and `summary_candidate_score`;
-- escalation-proxy/app/contracts.py: `LiaisonFinalReport`.
use Prim.Native.Char.{code}
use sre_agent_team.Base.{
  ℕ, ◌+◌, Bool, false, ◌||◌, String, Option, none, some, List, ltb, leb, eqb, ◌==◌, if◌then◌else◌,
}
use sre_agent_team.Base.Text.{strip, lower, contains, count}
use sre_agent_team.Base.Int.{ℤ, pos, negsuc, sub_ℕ}

pub data LiaisonVerdict : Type 0 where
  platform_issue application_issue inconclusive : LiaisonVerdict

pub record LiaisonFinalReport : Type 0 where
  pub verdict : LiaisonVerdict
  pub root_cause : String
  pub evidence : List String
  pub recommended_actions : List String
  pub limitations : List String
  pub finalization_token : String

-- `s.replace("-", "").replace("_", "")`
unfoldable pub drop_dashes : String → String
drop_dashes String.[] = ""
drop_dashes (String.◌∷◌ c s) =
    if eqb (code c) 45 || eqb (code c) 95 then drop_dashes s else String.◌∷◌ c (drop_dashes s)

-- The argument is `str(value)`, or nothing for `None`.
unfoldable pub normalize_status_value : Option String → String
normalize_status_value none = ""
normalize_status_value (some value) = drop_dashes (lower (strip value))

-- `n` where the text holds `part`
unfoldable pub points : ℕ → String → String → ℕ
points n part text = if contains text part then n else 0

-- The points for what the text, in lower case, holds.
unfoldable pub content_points : String → String → ℕ
content_points finalization_token text =
    points 500 (lower finalization_token) text
    + points 100 "## escalation response" text
    + points 90 "## platform investigation findings" text
    + points 30 "### root cause" text
    + points 25 "### evidence" text
    + points 25 "### recommended actions" text
    + points 20 "### verdict" text
    + points 10 "escalated by:" text
    + points 10 "reported symptom:" text

-- The points added or taken for the number of characters.
unfoldable pub add_length_points : ℕ → ℕ → ℤ
add_length_points length score =
    if leb 1200 length
    then pos (score + 15)
    else if leb 600 length
    then pos (score + 8)
    else if ltb length 160
    then sub_ℕ score 10
    else pos score

-- `model_validate_json(content)` gives a report with the token.
abbrev pub is_final_report : Option LiaisonFinalReport → String → Bool
is_final_report none finalization_token = false
is_final_report (some report) finalization_token = report.finalization_token == finalization_token

-- `parse` is `LiaisonFinalReport.model_validate_json`, nothing where it raises.
module _ (parse : String → Option LiaisonFinalReport) (finalization_token : String) where
  -- The score of a stripped text that is not empty.
  unfoldable pub content_score : String → ℤ
  content_score content =
      if is_final_report (parse content) finalization_token
      then pos 600
      else add_length_points (count content) (content_points finalization_token (lower content))

  unfoldable pub summary_candidate_score : String → ℤ
  summary_candidate_score text =
      let content = strip text in if content == "" then negsuc 0 else content_score content
