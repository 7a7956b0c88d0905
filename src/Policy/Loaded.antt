-- ===== src/Policy/Loaded.antt =====
-- escalation-proxy/app/caller_policy.py: what is known of a store that `from_json` has loaded.
use sre_agent_team.Base.{
  ℕ, ◌≤◌, ◌≡◌, refl, ◌≢◌, Bool, true, String, Option, none, some, List, [], ◌∷◌, arith, All,
  Option-cases, Bool-cases, inl, inr, ◌==◌,
}
use sre_agent_team.Base.Fallible.{ok, Result-cases}
use sre_agent_team.Base.Dict.{Dict, insert}
use sre_agent_team.Base.Text.{strip, lower}
use sre_agent_team.Base.Int.{ℤ, pos}
use sre_agent_team.Policy.Json.{int, get_field, Json, text, array, object, Items, nil, cons, Fields}
use sre_agent_team.Policy.Groups.{is_resource_group_id}
use sre_agent_team.Policy.Severity.{severity_rank}
use sre_agent_team.Policy.Store.{CallerPolicy, CallerPolicyStore}
use sre_agent_team.Policy.Loading.{
  Builtins, positive, normalized_group, normalized_groups, groups_of, make_policy, load_entry,
  load_entries, load_parsed, from_json, int_of, str_of, field_or,
}
use sre_agent_team.Policy.Normal.{is_resource_group_id-lower}

-- A policy that the service can enforce: its caller and severity are known, it allows one
-- investigation at least, and its groups are resource group ids.
pub record IsSound (p : CallerPolicy) : Type 0 where
  pub named : p.appid ≢ ""
  pub ranked : severity_rank p.maximum_severity ≢ none
  pub positive_quota : 1 ≤ p.maximum_concurrent_investigations
  pub groups : All (λ g. is_resource_group_id g ≡ true) p.allowed_resource_groups

abbrev pub AllSound : Dict CallerPolicy → Type 0
AllSound [] = Unit
AllSound ((k, p) ∷ d) = (k ≡ p.appid) × IsSound p × AllSound d

normalized_groups-All :
    (vs : Items) (gs : List String)
    → normalized_groups vs ≡ some gs
    → All (λ g. is_resource_group_id g ≡ true) gs
unfolding normalized_groups normalized_group
normalized_groups-All nil [] e = tt
normalized_groups-All nil (g ∷ gs) e = cc
normalized_groups-All (cons v vs) [] e = ground arith
normalized_groups-All (cons (text s) vs) (g ∷ gs) e =
    ground (arith, is_resource_group_id-lower (strip s), normalized_groups-All vs gs)
normalized_groups-All (cons _ vs) (g ∷ gs) e = ground arith

groups_of-All :
    (v : Json) (gs : List String)
    → groups_of v ≡ some gs
    → All (λ g. is_resource_group_id g ≡ true) gs
unfolding groups_of
groups_of-All (array vs) gs e = normalized_groups-All vs gs e
groups_of-All _ gs e = ground arith

positive-pos : (n : ℤ) (q : ℕ) → positive n ≡ some q → 1 ≤ q
unfolding positive
positive-pos n q e = ground arith

module _ (b : Builtins) where
  make_policy-IsSound :
      (fs : Fields) (appid severity : String) (quota : Option ℕ) (groups : Option (List String))
      (p : CallerPolicy)
      → ((q : ℕ) → quota ≡ some q → 1 ≤ q)
      → ((gs : List String) → groups ≡ some gs → All (λ g. is_resource_group_id g ≡ true) gs)
      → make_policy b fs appid severity quota groups ≡ ok p
      → IsSound p
  unfolding make_policy
  make_policy-IsSound fs appid severity (some q) (some gs) p hq hg e =
      let one : 1 ≤ q = hq q refl in let valid = hg gs refl in ground (arith, one, valid)
  make_policy-IsSound fs appid severity none groups p hq hg e = cc
  make_policy-IsSound fs appid severity (some q) none p hq hg e = cc

  load_entry-IsSound :
      (default_quota : ℕ) (v : Json) (p : CallerPolicy)
      → load_entry b default_quota v ≡ ok p
      → IsSound p
  unfolding load_entry
  load_entry-IsSound default_quota (object fs) p e =
      let quota =
        int_of b (field_or "maximum_concurrent_investigations" (int (pos default_quota)) fs) in
      elim (Option-cases (get_field "appid" fs)) [
        | inl absent ↦ ground arith
        | inr (v, found) ↦ elim (Result-cases quota) [
          | inl (n, read) ↦
              make_policy-IsSound fs (strip (str_of b v))
                (lower (strip (str_of b (field_or "maximum_severity" (text "critical") fs))))
                (positive n) (groups_of (field_or "allowed_resource_groups" (array nil) fs)) p
                (positive-pos n) (groups_of-All _) (ground arith)
          | inr (x, failed) ↦ ground arith
        ]
      ]
  load_entry-IsSound default_quota _ p e = cc

  insert-AllSound :
      (p : CallerPolicy) (d : Dict CallerPolicy)
      → IsSound p
      → AllSound d
      → AllSound (insert p.appid p d)
  unfolding insert
  insert-AllSound p [] new h = (refl, new, tt)
  insert-AllSound p ((i, x) ∷ d) new h = ground (arith, insert-AllSound p d new h.2)

  load_entries-AllSound :
      (default_quota : ℕ) (vs : Items) (d e : Dict CallerPolicy)
      → AllSound d
      → load_entries b default_quota vs d ≡ ok e
      → AllSound e
  unfolding load_entries
  load_entries-AllSound default_quota nil d e h same = ground arith
  load_entries-AllSound default_quota (cons v vs) d e h same =
      elim (Result-cases (load_entry b default_quota v)) [
        | inl (p, loaded) ↦
            load_entries-AllSound default_quota vs (insert p.appid p d) e
              (insert-AllSound p d (load_entry-IsSound default_quota v p loaded) h) (ground arith)
        | inr (x, failed) ↦ ground arith
      ]

  parsed-AllSound :
      (v : Option Json) (default_quota : ℕ) (allow : Bool) (store : CallerPolicyStore)
      → load_parsed b v default_quota allow ≡ ok store
      → AllSound store.policies
        × (store.default_quota ≡ default_quota)
        × (store.allow_unregistered ≡ allow)
  unfolding load_parsed
  parsed-AllSound none default_quota allow store e = cc
  parsed-AllSound (some (array vs)) default_quota allow store e =
      elim (Result-cases (load_entries b default_quota vs [])) [
        | inl (d, loaded) ↦ ground (arith, load_entries-AllSound default_quota vs [] d tt loaded)
        | inr (x, failed) ↦ ground arith
      ]
  parsed-AllSound (some _) default_quota allow store e = cc

  pub from_json-AllSound :
      (raw : String) (default_quota : ℕ) (allow : Bool) (store : CallerPolicyStore)
      → from_json b raw default_quota allow ≡ ok store
      → AllSound store.policies
        × (store.default_quota ≡ default_quota)
        × (store.allow_unregistered ≡ allow)
  unfolding from_json load_parsed
  from_json-AllSound raw default_quota allow store e = elim (Bool-cases (strip raw == "")) [
    | inl blank ↦ (ground arith, ground arith, ground arith)
    | inr given ↦ parsed-AllSound (b.loads raw) default_quota allow store (ground arith)
  ]
