-- ===== src/Output/Ranking.antt =====
-- escalation-proxy/app/output_validation.py: the candidate that `select_best_summary_text` ranks first.
use sre_agent_team.Base.{
  ◌+◌, ◌≡◌, refl, sym, subst, ◌⊎◌, inl, inr, true, false, String, Option, List, [], ◌∷◌, arith, All,
  All-map, if◌then◌else◌, Bool-cases,
}
use sre_agent_team.Base.Int.{pos, leb_ℤ}
use sre_agent_team.Output.Scoring.{LiaisonFinalReport, summary_candidate_score}
use sre_agent_team.Output.Selection.{
  Candidate, key_lt, insert_ranked, sort_ranked, last_three, join_texts, best_structured_message,
  recent_composite, Selection, choose, candidates, select_best_summary_text,
}

-- `x` stands in the list.
abbrev pub OneOf : Candidate → List Candidate → Type 0
OneOf x [] = ⊥
OneOf x (y ∷ ys) = (x ≡ y) ⊎ OneOf x ys

-- The greatest candidate by its key.
top : Candidate → List Candidate → Candidate
top c [] = c
top c (d ∷ ds) = let best = top d ds in if key_lt c best then best else c

sort_ranked_head :
    (c : Candidate) (cs : List Candidate)
    → (rest : List Candidate) × (sort_ranked (c ∷ cs) ≡ top c cs ∷ rest)
unfolding sort_ranked insert_ranked top
sort_ranked_head c [] = ([], refl)
sort_ranked_head c (d ∷ ds) =
    let (rest, e) = sort_ranked_head d ds in
    elim (Bool-cases (key_lt c (top d ds))) [
      | inl less ↦ (insert_ranked c rest, rw (e, insert_ranked, less))
      | inr more ↦ (top d ds ∷ rest, rw (e, insert_ranked, more))
    ]

key_lt_trans : (a b c : Candidate) → key_lt a b ≡ false → key_lt b c ≡ false → key_lt a c ≡ false
unfolding key_lt
key_lt_trans a b c h k = ground arith

key_lt_irrefl : (a : Candidate) → key_lt a a ≡ false
unfolding key_lt
key_lt_irrefl a = ground arith

key_lt_asym : (a b : Candidate) → key_lt a b ≡ true → key_lt b a ≡ false
unfolding key_lt
key_lt_asym a b h = ground arith

top_nil : (c : Candidate) → top c [] ≡ c
unfolding top
top_nil c = refl

top_less :
    (c d : Candidate) (ds : List Candidate) → key_lt c (top d ds) ≡ true → top c (d ∷ ds) ≡ top d ds
unfolding top
top_less c d ds less = rw less

top_more :
    (c d : Candidate) (ds : List Candidate) → key_lt c (top d ds) ≡ false → top c (d ∷ ds) ≡ c
unfolding top
top_more c d ds more = rw more

top-OneOf : (c : Candidate) (cs : List Candidate) → OneOf (top c cs) (c ∷ cs)
top-OneOf c [] = inl (top_nil c)
top-OneOf c (d ∷ ds) = elim (Bool-cases (key_lt c (top d ds))) [
  | inl less ↦ subst (λ x. OneOf x (c ∷ d ∷ ds)) (sym (top_less c d ds less)) (inr (top-OneOf d ds))
  | inr more ↦ inl (top_more c d ds more)
]

top_greatest :
    (c : Candidate) (cs : List Candidate) → All (λ d. key_lt (top c cs) d ≡ false) (c ∷ cs)
top_greatest c [] = (rw (top_nil c) (key_lt_irrefl c), tt)
top_greatest c (d ∷ ds) = elim (Bool-cases (key_lt c (top d ds))) [
  | inl less ↦
      subst (λ x. All (λ y. key_lt x y ≡ false) (c ∷ d ∷ ds)) (sym (top_less c d ds less))
        (key_lt_asym c (top d ds) less, top_greatest d ds)
  | inr more ↦
      subst (λ x. All (λ y. key_lt x y ≡ false) (c ∷ d ∷ ds)) (sym (top_more c d ds more))
        (
          key_lt_irrefl c,
          All-map (d ∷ ds) (λ x h. key_lt_trans c (top d ds) x more h) (top_greatest d ds),
        )
]

-- What is returned for the candidate that is ranked first.
abbrev pub selected : List String → Candidate → Selection
selected texts best =
    if leb_ℤ (pos 40) best.score
    then record { best_score = best.score; text = best.text; strategy = best_structured_message }
    else record {
      best_score = best.score;
      text = join_texts (last_three texts);
      strategy = recent_composite;
    }

module _ (parse : String → Option LiaisonFinalReport) (finalization_token : String) where
  -- Of one text or more, the best is one of those given and no other has a higher score, nor the same
  -- score and a later place; its text is returned if it scores 40 or more, and the last three texts
  -- joined if it does not.
  pub select_picks_best :
      (t : String) (ts : List String)
      → let all = candidates parse finalization_token 0 (t ∷ ts) in
        (best : Candidate) × OneOf best all
        × All (λ d. key_lt best d ≡ false) all
        × (select_best_summary_text parse finalization_token (t ∷ ts) ≡ selected (t ∷ ts) best)
  unfolding select_best_summary_text candidates choose
  select_picks_best t ts =
      let first : Candidate = record {
        score = summary_candidate_score parse finalization_token t;
        index = 0;
        text = t;
      } in
      let others = candidates parse finalization_token (0 + 1) ts in
      let (rest, e) = sort_ranked_head first others in
      (top first others, top-OneOf first others, top_greatest first others, rw e refl)
