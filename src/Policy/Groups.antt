-- ===== src/Policy/Groups.antt =====
-- escalation-proxy/app/caller_policy.py: `RESOURCE_GROUP_ID_PATTERN`, matched over the whole text and
-- without regard to case.
use sre_agent_team.Base.{
  ℕ, zero, suc, ◌+◌, Bool, true, false, ◌&&◌, ◌||◌, String, List, [], ◌∷◌, eqb, leb, if◌then◌else◌,
}
use sre_agent_team.Base.Text.{codes}

-- The character that `re.IGNORECASE` compares: capitals, and the four other characters that match an
-- ASCII letter.
unfoldable pub fold_case : ℕ → ℕ
fold_case c =
    if leb 65 c && leb c 90
    then c + 32
    else if eqb c 0x130 || eqb c 0x131
    then 105
    else if eqb c 0x17f
    then 115
    else if eqb c 0x212a
    then 107
    else c

-- `[0-9a-f-]`
unfoldable pub is_hex_or_dash : ℕ → Bool
is_hex_or_dash c = (leb 48 c && leb c 57) || (leb 97 c && leb c 102) || eqb c 45

-- `[a-z0-9._()\-]`
unfoldable pub is_name_char : ℕ → Bool
is_name_char c =
    (leb 97 c && leb c 122)
    || (leb 48 c && leb c 57)
    || eqb c 46
    || eqb c 95
    || eqb c 40
    || eqb c 41
    || eqb c 45

-- `[a-z0-9._()\-]{1,room}$` where `room` characters may still follow and one stands before.
unfoldable pub match_name : ℕ → List ℕ → Bool
match_name room [] = true
match_name zero (c ∷ cs) = false
match_name (suc room) (c ∷ cs) = is_name_char (fold_case c) && match_name room cs

unfoldable pub match_name_some : List ℕ → Bool
match_name_some [] = false
match_name_some (c ∷ cs) = match_name 90 (c ∷ cs)

-- The letters `expected`, then what `rest` matches.
unfoldable pub match_word : List ℕ → (List ℕ → Bool) → List ℕ → Bool
match_word [] rest cs = rest cs
match_word (e ∷ es) rest [] = false
match_word (e ∷ es) rest (c ∷ cs) = eqb (fold_case c) e && match_word es rest cs

-- `[0-9a-f-]{n}`, then what `rest` matches.
unfoldable pub match_hex : ℕ → (List ℕ → Bool) → List ℕ → Bool
match_hex zero rest cs = rest cs
match_hex (suc n) rest [] = false
match_hex (suc n) rest (c ∷ cs) = is_hex_or_dash (fold_case c) && match_hex n rest cs

-- `RESOURCE_GROUP_ID_PATTERN.fullmatch(s)`
unfoldable pub is_resource_group_id : String → Bool
unfolding fold_case is_hex_or_dash is_name_char match_name match_name_some match_word match_hex
is_resource_group_id s =
    match_word (codes "/subscriptions/")
      (match_hex 36 (match_word (codes "/resourcegroups/") match_name_some)) (codes s)
