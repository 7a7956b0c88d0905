-- ===== src/Output/Selection.antt =====
-- escalation-proxy/app/output_validation.py: `select_best_summary_text`.
use Prim.Native.String.{◌++◌ as ◌<>◌}
use sre_agent_team.Base.{
  ℕ, ◌+◌, Bool, String, Option, List, [], ◌∷◌, ltb, leb, if◌then◌else◌, length, ◌||◌, ◌&&◌,
}
use sre_agent_team.Base.Int.{ℤ, pos, negsuc, leb_ℤ, ltb_ℤ}
use sre_agent_team.Output.Scoring.{LiaisonFinalReport, summary_candidate_score}

-- A tuple `(score, index, text)`.
pub record Candidate : Type 0 where
  pub score : ℤ
  pub index : ℕ
  pub text : String

-- The keys `(score, index)` in order.
unfoldable pub key_lt : Candidate → Candidate → Bool
key_lt a b = ltb_ℤ a.score b.score || (leb_ℤ a.score b.score && ltb a.index b.index)

-- `ranked.sort(key=…, reverse=True)`: the greatest key first.
unfoldable pub insert_ranked : Candidate → List Candidate → List Candidate
insert_ranked c [] = c ∷ []
insert_ranked c (d ∷ ds) = if key_lt c d then d ∷ insert_ranked c ds else c ∷ d ∷ ds

unfoldable pub sort_ranked : List Candidate → List Candidate
sort_ranked [] = []
sort_ranked (c ∷ cs) = insert_ranked c (sort_ranked cs)

-- `texts[-3:]`
unfoldable pub last_three : List String → List String
last_three [] = []
last_three (t ∷ ts) = if leb (length ts) 2 then t ∷ ts else last_three ts

-- `"\n\n---\n\n".join(texts)`
unfoldable pub join_texts : List String → String
join_texts [] = ""
join_texts (t ∷ []) = t
join_texts (t ∷ u ∷ ts) = t <> ("\n\n---\n\n" <> join_texts (u ∷ ts))

pub data Strategy : Type 0 where
  no_text best_structured_message recent_composite : Strategy

-- The tuple `(best_score, text, strategy)`.
pub record Selection : Type 0 where
  pub best_score : ℤ
  pub text : String
  pub strategy : Strategy

-- The rest of `select_best_summary_text`, on the ranked candidates.
unfoldable pub choose : List String → List Candidate → Selection
choose agent_texts [] = record { best_score = negsuc 0; text = ""; strategy = no_text }
choose agent_texts (best ∷ ranked) =
    if leb_ℤ (pos 40) best.score
    then record { best_score = best.score; text = best.text; strategy = best_structured_message }
    else record {
      best_score = best.score;
      text = join_texts (last_three agent_texts);
      strategy = recent_composite;
    }

module _ (parse : String → Option LiaisonFinalReport) (finalization_token : String) where
  -- `[(score(text), index, text) for index, text in enumerate(agent_texts)]`, from an index on.
  unfoldable pub candidates : ℕ → List String → List Candidate
  candidates index [] = []
  candidates index (t ∷ ts) =
      record { score = summary_candidate_score parse finalization_token t; index = index; text = t }
      ∷ candidates (index + 1) ts

  unfoldable pub select_best_summary_text : List String → Selection
  select_best_summary_text agent_texts = choose agent_texts (sort_ranked (candidates 0 agent_texts))
