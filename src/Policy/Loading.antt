-- ===== src/Policy/Loading.antt =====
-- escalation-proxy/app/caller_policy.py: `CallerPolicyStore.from_json`.
use sre_agent_team.Base.{
  ℕ, zero, suc, Bool, true, false, String, Option, none, some, List, [], ◌∷◌, ◌==◌, if◌then◌else◌,
}
use sre_agent_team.Base.Fallible.{Result, ok, err, ◌>>=◌}
use sre_agent_team.Base.Dict.{Dict, insert}
use sre_agent_team.Base.Text.{strip, lower}
use sre_agent_team.Base.Int.{ℤ, pos, negsuc}
use sre_agent_team.Policy.Json.{
  Json, bool, int, fraction, text, array, object, Items, nil, cons, Fields, get_field, truth,
}
use sre_agent_team.Policy.Groups.{is_resource_group_id}
use sre_agent_team.Policy.Severity.{severity_rank}
use sre_agent_team.Policy.Store.{
  CallerPolicy, CallerPolicyStore, PolicyError, not_json, not_an_array, invalid_policy,
  not_an_integer, missing_key, wrong_type,
}

-- Python's `json.loads` (nothing where it raises), `str` of a value that is no text, and `int` of a
-- text (nothing where it raises).
pub record Builtins : Type 0 where
  pub loads : String → Option Json
  pub printed : Json → String
  pub parse_int : String → Option ℤ

-- `d.get(key, default)`
abbrev pub field_or : String → Json → Fields → Json
field_or key default fs = elim (get_field key fs) [ none ↦ default | some v ↦ v ]

-- A quota below 1 is refused, so what is kept is a natural number.
unfoldable pub positive : ℤ → Option ℕ
positive (pos zero) = none
positive (pos (suc n)) = some (suc n)
positive (negsuc n) = none

-- A text that is a resource group id once it is stripped, normalized.
unfoldable pub normalized_group : Json → Option String
normalized_group (text s) = if is_resource_group_id (strip s) then some (lower (strip s)) else none
normalized_group _ = none

unfoldable pub normalized_groups : Items → Option (List String)
normalized_groups nil = some []
normalized_groups (cons v vs) = elim (normalized_group v) [
  | none ↦ none
  | some g ↦ elim (normalized_groups vs) [ none ↦ none | some gs ↦ some (g ∷ gs) ]
]

-- The list of groups, where it is a list and each of its elements is valid.
unfoldable pub groups_of : Json → Option (List String)
groups_of (array vs) = normalized_groups vs
groups_of _ = none

module _ (b : Builtins) where
  -- `str(v)`
  unfoldable pub str_of : Json → String
  str_of (text s) = s
  str_of v = b.printed v

  -- `int(v)`
  unfoldable pub int_of : Json → Result PolicyError ℤ
  int_of (int n) = ok n
  int_of (bool true) = ok (pos 1)
  int_of (bool false) = ok (pos 0)
  int_of (fraction whole printed) = ok whole
  int_of (text s) = elim (b.parse_int s) [ none ↦ err not_an_integer | some n ↦ ok n ]
  int_of _ = err wrong_type

  -- The test of an entry's values, and the policy that they make.
  unfoldable pub make_policy :
      Fields → String → String → Option ℕ → Option (List String) → Result PolicyError CallerPolicy
  make_policy fs appid maximum_severity (some quota) (some groups) =
      elim (severity_rank maximum_severity) [
        | none ↦ err invalid_policy
        | some _ ↦
            if appid == ""
            then err invalid_policy
            else ok (record {
              appid = appid;
              display_name = str_of (field_or "display_name" (text appid) fs);
              enabled = truth (field_or "enabled" (bool true) fs);
              maximum_severity = maximum_severity;
              maximum_concurrent_investigations = quota;
              allowed_resource_groups = groups;
            })
      ]
  make_policy fs appid maximum_severity _ _ = err invalid_policy

  -- The body of the loop over the entries.
  unfoldable pub load_entry : ℕ → Json → Result PolicyError CallerPolicy
  load_entry default_quota (object fs) = elim (get_field "appid" fs) [
    | none ↦ err missing_key
    | some v ↦ do
      quota ← int_of (field_or "maximum_concurrent_investigations" (int (pos default_quota)) fs)
      make_policy fs (strip (str_of v))
          (lower (strip (str_of (field_or "maximum_severity" (text "critical") fs))))
          (positive quota) (groups_of (field_or "allowed_resource_groups" (array nil) fs))
  ]
  load_entry default_quota _ = err wrong_type

  -- The loop; `policies` is the dict so far.
  unfoldable pub load_entries :
      ℕ → Items → Dict CallerPolicy → Result PolicyError (Dict CallerPolicy)
  load_entries default_quota nil policies = ok policies
  load_entries default_quota (cons v vs) policies = load_entry default_quota v >>= λ policy.
      load_entries default_quota vs (insert policy.appid policy policies)

  unfoldable pub load_parsed : Option Json → ℕ → Bool → Result PolicyError CallerPolicyStore
  load_parsed none default_quota allow_unregistered = err not_json
  load_parsed (some (array entries)) default_quota allow_unregistered = do
    policies ← load_entries default_quota entries []
    ok (record {
      policies = policies;
      default_quota = default_quota;
      allow_unregistered = allow_unregistered;
    })
  load_parsed (some _) default_quota allow_unregistered = err not_an_array

  unfoldable pub from_json : String → ℕ → Bool → Result PolicyError CallerPolicyStore
  from_json raw default_quota allow_unregistered =
      if strip raw == ""
      then ok (record {
        policies = [];
        default_quota = default_quota;
        allow_unregistered = allow_unregistered;
      })
      else load_parsed (b.loads raw) default_quota allow_unregistered
