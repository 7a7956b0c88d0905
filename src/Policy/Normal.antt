-- ===== src/Policy/Normal.antt =====
-- escalation-proxy/app/caller_policy.py: lower case does not change whether a text is a resource group
-- id.
use Prim.Native.Char.{Char, code}
use sre_agent_team.Base.{
  ℕ, zero, suc, ◌+◌, ◌<◌, ◌≡◌, refl, ◌∙◌, Bool, true, ◌&&◌, inl, inr, Bool-cases, eqb, String, List,
  [], ◌∷◌, map, arith, leb, if◌then◌else◌,
}
use sre_agent_team.Base.Text.{codes, lower, replace_by, lower_case}
use sre_agent_team.Policy.Groups.{
  fold_case, match_name, match_name_some, match_word, match_hex, is_resource_group_id,
}

-- The code of a character's lower case.
abbrev lower_code : ℕ → ℕ
lower_code c = if leb 65 c && leb c 90 then c + 32 else c

-- What a table makes of a code.
replace_code : List (ℕ × Char) → ℕ → ℕ
replace_code [] n = n
replace_code ((m, d) ∷ table) n = if eqb n m then code d else replace_code table n

code-replace_by :
    (table : List (ℕ × Char)) (c : Char) → code (replace_by table c) ≡ replace_code table (code c)
unfolding replace_by replace_code
code-replace_by [] c = refl
code-replace_by ((m, d) ∷ table) c = ground (arith, code-replace_by table c)

-- The table and the lower case of the letters agree on each code under a bound.
agree_under : ℕ → Bool
agree_under zero = true
agree_under (suc m) = eqb (replace_code lower_case m) (lower_code m) && agree_under m

replace_code_small :
    (bound n : ℕ) → n < bound → agree_under bound ≡ true → replace_code lower_case n ≡ lower_code n
unfolding agree_under
replace_code_small zero n under agreed = absurd (omega arith)
replace_code_small (suc m) n under agreed = elim (Bool-cases (eqb n m)) [
  | inl last ↦ ground arith
  | inr before ↦ replace_code_small m n (ground arith) (ground arith)
]

capitals_table : agree_under 91 ≡ true
unfolding agree_under replace_code
capitals_table = refl

Above : ℕ → List (ℕ × Char) → Type 0
Above n [] = Unit
Above n ((m, d) ∷ table) = (m < n) × Above n table

replace_code-Above : (table : List (ℕ × Char)) (n : ℕ) → Above n table → replace_code table n ≡ n
unfolding replace_code Above
replace_code-Above [] n h = refl
replace_code-Above ((m, d) ∷ table) n h = ground (arith, replace_code-Above table n h.1)

replace_code-lower : (n : ℕ) → replace_code lower_case n ≡ lower_code n
unfolding Above
replace_code-lower n = elim (Bool-cases (leb n 90)) [
  | inl small ↦ replace_code_small 91 n (ground arith) capitals_table
  | inr large ↦ replace_code-Above lower_case n (ground arith) ∙ ground arith
]

code-lower : (c : Char) → code (replace_by lower_case c) ≡ lower_code (code c)
code-lower c = code-replace_by lower_case c ∙ replace_code-lower (code c)

codes-lower : (s : String) → codes (lower s) ≡ map lower_code (codes s)
unfolding lower
codes-lower String.[] = refl
codes-lower (String.◌∷◌ c s) = ground (arith, code-lower c, codes-lower s)

fold_case-lower : (c : ℕ) → fold_case (lower_code c) ≡ fold_case c
unfolding fold_case
fold_case-lower c = ground arith

-- A test of texts that only sees characters without regard to case.
abbrev IgnoresCase : (List ℕ → Bool) → Type 0
IgnoresCase f = (cs : List ℕ) → f (map lower_code cs) ≡ f cs

match_name-IgnoresCase : (room : ℕ) → IgnoresCase (match_name room)
unfolding match_name
match_name-IgnoresCase room [] = refl
match_name-IgnoresCase zero (c ∷ cs) = refl
match_name-IgnoresCase (suc room) (c ∷ cs) = rw (fold_case-lower c, match_name-IgnoresCase room cs)

match_name_some-IgnoresCase : IgnoresCase match_name_some
unfolding match_name_some
match_name_some-IgnoresCase [] = refl
match_name_some-IgnoresCase (c ∷ cs) = match_name-IgnoresCase 90 (c ∷ cs)

match_word-IgnoresCase :
    (es : List ℕ) (rest : List ℕ → Bool) → IgnoresCase rest → IgnoresCase (match_word es rest)
unfolding match_word
match_word-IgnoresCase [] rest h cs = h cs
match_word-IgnoresCase (e ∷ es) rest h [] = refl
match_word-IgnoresCase (e ∷ es) rest h (c ∷ cs) =
    rw (fold_case-lower c, match_word-IgnoresCase es rest h cs)

match_hex-IgnoresCase :
    (n : ℕ) (rest : List ℕ → Bool) → IgnoresCase rest → IgnoresCase (match_hex n rest)
unfolding match_hex
match_hex-IgnoresCase zero rest h cs = h cs
match_hex-IgnoresCase (suc n) rest h [] = refl
match_hex-IgnoresCase (suc n) rest h (c ∷ cs) =
    rw (fold_case-lower c, match_hex-IgnoresCase n rest h cs)

pub is_resource_group_id-lower :
    (s : String) → is_resource_group_id (lower s) ≡ is_resource_group_id s
unfolding is_resource_group_id
is_resource_group_id-lower s = rw (codes-lower s) (
    match_word-IgnoresCase (codes "/subscriptions/") _
      (match_hex-IgnoresCase 36 _
        (match_word-IgnoresCase (codes "/resourcegroups/") _ match_name_some-IgnoresCase))
      (codes s))
