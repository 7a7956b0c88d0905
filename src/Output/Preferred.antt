-- ===== src/Output/Preferred.antt =====
-- escalation-proxy/app/output_validation.py: a text that carries the finalization token is preferred to
-- every text that does not.
use sre_agent_team.Base.{
  ℕ, ◌+◌, ◌≡◌, inl, inr, Bool, true, false, ◌||◌, ◌&&◌, not, String, Option, List, [], ◌∷◌, arith,
  All, Bool-cases, ◌==◌,
}
use sre_agent_team.Base.Text.{strip, lower, contains}
use sre_agent_team.Base.Int.{pos, ◌≤ℤ◌}
use sre_agent_team.Output.Scoring.{
  LiaisonFinalReport, is_final_report, points, content_points, add_length_points, content_score,
  summary_candidate_score,
}
use sre_agent_team.Output.Selection.{
  Candidate, key_lt, best_structured_message, candidates, select_best_summary_text,
}
use sre_agent_team.Output.Ranking.{OneOf, select_picks_best}

module _ (parse : String → Option LiaisonFinalReport) (token : String) where
  -- The text is a JSON report with the token, or mentions the token, without regard to case.
  abbrev pub carries_token : String → Bool
  carries_token text =
      not (strip text == "")
      && (is_final_report (parse (strip text)) token || contains (lower (strip text)) (lower token))

  carries-score :
      (text : String)
      → carries_token text ≡ true
      → pos 490 ≤ℤ summary_candidate_score parse token text
  unfolding summary_candidate_score content_score content_points points add_length_points
  carries-score text c = ground arith

  lacks-score :
      (text : String)
      → carries_token text ≡ false
      → summary_candidate_score parse token text ≤ℤ pos 325
  unfolding summary_candidate_score content_score content_points points add_length_points
  lacks-score text c = ground arith

  abbrev pub some_carries : List String → Bool
  some_carries [] = false
  some_carries (t ∷ ts) = carries_token t || some_carries ts

  -- A candidate is scored by its text.
  candidates-scored :
      (i : ℕ) (ts : List String) (c : Candidate)
      → OneOf c (candidates parse token i ts)
      → c.score ≡ summary_candidate_score parse token c.text
  unfolding candidates
  candidates-scored i [] c one = elim one [ ]
  candidates-scored i (t ∷ ts) c (inl e) = ground arith
  candidates-scored i (t ∷ ts) c (inr one) = candidates-scored (i + 1) ts c one

  -- If no candidate outranks one, and some text carries the token, that one scores as such a text.
  best-score :
      (best : Candidate) (i : ℕ) (ts : List String)
      → All (λ d. key_lt best d ≡ false) (candidates parse token i ts)
      → some_carries ts ≡ true
      → pos 490 ≤ℤ best.score
  unfolding candidates key_lt
  best-score best i [] all carried = cc
  best-score best i (t ∷ ts) all carried = elim (Bool-cases (carries_token t)) [
    | inl here ↦ ground (arith, carries-score t here)
    | inr later ↦ best-score best (i + 1) ts all.1 (ground arith)
  ]

  -- If one of the texts carries the finalization token, the text that is selected is one that
  -- carries it, taken whole.
  pub select_prefers_token :
      (t : String) (ts : List String)
      → some_carries (t ∷ ts) ≡ true
      → let chosen = select_best_summary_text parse token (t ∷ ts) in
        (carries_token chosen.text ≡ true) × (chosen.strategy ≡ best_structured_message)
  select_prefers_token t ts carried =
      let (best, one, greatest, e) = select_picks_best parse token t ts in
      let high = best-score best 0 (t ∷ ts) greatest carried in
      let scored = candidates-scored 0 (t ∷ ts) best one in
      elim (Bool-cases (carries_token best.text)) [
        | inl carries ↦ rw e (ground arith)
        | inr lacks ↦ absurd (ground (arith, lacks-score best.text lacks))
      ]
