-- ===== src/Policy/GroupIds.antt =====
-- escalation-proxy/app/caller_policy.py: which texts `RESOURCE_GROUP_ID_PATTERN` matches.
use sre_agent_team.Base.{
  ℕ, zero, suc, ◌≤◌, ◌≡◌, refl, ◌⊎◌, ◌↔◌, Bool, true, List, [], ◌∷◌, ◌++◌, map, length, All, arith,
  subst, sym, String,
}
use sre_agent_team.Base.Text.{codes}
use sre_agent_team.Policy.Groups.{
  fold_case, is_hex_or_dash, is_name_char, match_name, match_name_some, match_word, match_hex,
  is_resource_group_id,
}

-- A hexadecimal digit or a dash.
abbrev pub IsHexOrDash : ℕ → Type 0
IsHexOrDash c =
    ((48 ≤ fold_case c) × (fold_case c ≤ 57))
    ⊎ ((97 ≤ fold_case c) × (fold_case c ≤ 102))
    ⊎ (fold_case c ≡ 45)

-- An ASCII letter or digit, a dot, an underscore, a parenthesis or a dash.
abbrev pub IsNameChar : ℕ → Type 0
IsNameChar c =
    ((97 ≤ fold_case c) × (fold_case c ≤ 122))
    ⊎ ((48 ≤ fold_case c) × (fold_case c ≤ 57))
    ⊎ (fold_case c ≡ 46)
    ⊎ (fold_case c ≡ 95)
    ⊎ (fold_case c ≡ 40)
    ⊎ (fold_case c ≡ 41)
    ⊎ (fold_case c ≡ 45)

hex_iff : (c : ℕ) → (is_hex_or_dash (fold_case c) ≡ true) ↔ IsHexOrDash c
unfolding is_hex_or_dash
hex_iff c = (λ e. ground arith, λ h. ground arith)

name_iff : (c : ℕ) → (is_name_char (fold_case c) ≡ true) ↔ IsNameChar c
unfolding is_name_char
name_iff c = (λ e. ground arith, λ h. ground arith)

module _ (rest : List ℕ → Bool) where
  word_matched :
      (word cs : List ℕ)
      → match_word word rest cs ≡ true
      → (u : List ℕ) × (v : List ℕ) × (cs ≡ u ++ v) × (map fold_case u ≡ word) × (rest v ≡ true)
  unfolding match_word
  word_matched [] cs h = ([], cs, refl, refl, h)
  word_matched (e ∷ word) [] h = absurd (ground arith)
  word_matched (e ∷ word) (c ∷ cs) h =
      let (u, v, split, same, matched) = word_matched word cs (ground arith) in
      (c ∷ u, v, ground arith, ground arith, matched)

  word_matches : (u v : List ℕ) → rest v ≡ true → match_word (map fold_case u) rest (u ++ v) ≡ true
  unfolding match_word
  word_matches [] v h = h
  word_matches (c ∷ u) v h = ground (arith, word_matches u v h)

  hex_matched :
      (n : ℕ) (cs : List ℕ)
      → match_hex n rest cs ≡ true
      → (u : List ℕ) × (v : List ℕ) × (cs ≡ u ++ v)
        × (length u ≡ n)
        × All IsHexOrDash u
        × (rest v ≡ true)
  unfolding match_hex
  hex_matched zero cs h = ([], cs, refl, refl, tt, h)
  hex_matched (suc n) [] h = absurd (ground arith)
  hex_matched (suc n) (c ∷ cs) h =
      let (u, v, split, long, digits, matched) = hex_matched n cs (ground arith) in
      (c ∷ u, v, ground arith, ground arith, ((hex_iff c).0 (ground arith), digits), matched)

  hex_matches :
      (u v : List ℕ) → All IsHexOrDash u → rest v ≡ true → match_hex (length u) rest (u ++ v) ≡ true
  unfolding match_hex
  hex_matches [] v digits h = h
  hex_matches (c ∷ u) v (digit, digits) h =
      ground (arith, (hex_iff c).1 digit, hex_matches u v digits h)

name_matched :
    (room : ℕ) (cs : List ℕ) → match_name room cs ≡ true → (length cs ≤ room) × All IsNameChar cs
unfolding match_name
name_matched room [] h = (ground arith, tt)
name_matched zero (c ∷ cs) h = absurd (ground arith)
name_matched (suc room) (c ∷ cs) h =
    let (short, chars) = name_matched room cs (ground arith) in
    (ground arith, ((name_iff c).0 (ground arith), chars))

name_matches :
    (room : ℕ) (cs : List ℕ) → length cs ≤ room → All IsNameChar cs → match_name room cs ≡ true
unfolding match_name
name_matches room [] short chars = refl
name_matches zero (c ∷ cs) short chars = absurd (ground arith)
name_matches (suc room) (c ∷ cs) short (char, chars) =
    ground (arith, (name_iff c).1 char, name_matches room cs (ground arith) chars)

-- `/subscriptions/`, 36 hexadecimal digits or dashes, `/resourcegroups/`, and a name of 1 to 90
-- characters, in capitals or small letters.
abbrev pub IsGroupId : List ℕ → Type 0
IsGroupId cs =
    (subscriptions : List ℕ) × (uuid : List ℕ) × (groups : List ℕ) × (name : List ℕ) × (cs
      ≡ subscriptions ++ (uuid ++ (groups ++ name)))
    × (map fold_case subscriptions ≡ codes "/subscriptions/")
    × (length uuid ≡ 36)
    × All IsHexOrDash uuid
    × (map fold_case groups ≡ codes "/resourcegroups/")
    × (1 ≤ length name)
    × (length name ≤ 90)
    × All IsNameChar name

name_some_matched :
    (cs : List ℕ)
    → match_name_some cs ≡ true
    → (1 ≤ length cs) × (length cs ≤ 90) × All IsNameChar cs
unfolding match_name_some
name_some_matched [] h = absurd (ground arith)
name_some_matched (c ∷ cs) h =
    let (short, chars) = name_matched 90 (c ∷ cs) h in (ground arith, short, chars)

name_some_matches :
    (cs : List ℕ) → 1 ≤ length cs → length cs ≤ 90 → All IsNameChar cs → match_name_some cs ≡ true
unfolding match_name_some
name_some_matches [] some_char short chars = absurd (ground arith)
name_some_matches (c ∷ cs) some_char short chars = name_matches 90 (c ∷ cs) short chars

joined :
    (cs a x b y d e : List ℕ) → cs ≡ a ++ x → x ≡ b ++ y → y ≡ d ++ e → cs ≡ a ++ (b ++ (d ++ e))
joined cs a x b y d e p q r = rw (p, q, r) refl

pub is_resource_group_id-IsGroupId :
    (s : String) → is_resource_group_id s ≡ true → IsGroupId (codes s)
unfolding is_resource_group_id
is_resource_group_id-IsGroupId s h =
    let name = match_name_some in
    let group = match_word (codes "/resourcegroups/") name in
    let (a, after_a, split_a, is_a, matched_a) =
      word_matched (match_hex 36 group) (codes "/subscriptions/") (codes s) h in
    let (b, after_b, split_b, long, digits, matched_b) = hex_matched group 36 after_a matched_a in
    let (d, e, split_d, is_d, matched_d) =
      word_matched name (codes "/resourcegroups/") after_b matched_b in
    let (some_char, short, chars) = name_some_matched e matched_d in
    (
      a,
      b,
      d,
      e,
      joined (codes s) a after_a b after_b d e split_a split_b split_d,
      is_a,
      long,
      digits,
      is_d,
      some_char,
      short,
      chars,
    )

pub IsGroupId-is_resource_group_id :
    (s : String) → IsGroupId (codes s) → is_resource_group_id s ≡ true
unfolding is_resource_group_id
IsGroupId-is_resource_group_id s
      (a, b, d, e, split, is_a, long, digits, is_d, some_char, short, chars) =
    let name = name_some_matches e some_char short chars in
    let group = word_matches match_name_some d e name in
    let group' : match_word (codes "/resourcegroups/") match_name_some (d ++ e) ≡ true =
      subst (λ w. match_word w match_name_some (d ++ e) ≡ true) is_d group in
    let rest = match_word (codes "/resourcegroups/") match_name_some in
    let hex : match_hex 36 rest (b ++ (d ++ e)) ≡ true =
      subst (λ n. match_hex n rest (b ++ (d ++ e)) ≡ true) long
        (hex_matches rest b (d ++ e) digits group') in
    subst (λ cs. match_word (codes "/subscriptions/") (match_hex 36 rest) cs ≡ true) (sym split)
      (subst (λ w. match_word w (match_hex 36 rest) (a ++ (b ++ (d ++ e))) ≡ true) is_a
        (word_matches (match_hex 36 rest) a (b ++ (d ++ e)) hex))
