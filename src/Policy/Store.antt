-- ===== src/Policy/Store.antt =====
-- escalation-proxy/app/caller_policy.py: `CallerPolicy` and the methods of `CallerPolicyStore`.
use sre_agent_team.Base.{
  ℕ, Bool, true, false, not, ◌&&◌, String, none, some, List, [], ◌∷◌, ltb, if◌then◌else◌,
}
use sre_agent_team.Base.Fallible.{Result, ok, err, ◌>>=◌, ◌>>◌, require}
use sre_agent_team.Base.Dict.{Dict, lookup}
use sre_agent_team.Base.Text.{strip, lower, is_among}
use sre_agent_team.Policy.Groups.{is_resource_group_id}
use sre_agent_team.Policy.Severity.{severity_rank}

pub record CallerPolicy : Type 0 where
  pub appid : String
  pub display_name : String
  pub enabled : Bool
  pub maximum_severity : String
  pub maximum_concurrent_investigations : ℕ
  pub allowed_resource_groups : List String

pub record CallerPolicyStore : Type 0 where
  pub policies : Dict CallerPolicy
  pub default_quota : ℕ
  pub allow_unregistered : Bool

-- What the methods raise. `unknown_severity` and `missing_key` are a `KeyError`, `wrong_type` a
-- `TypeError`; the others are a `ValueError`.
pub data PolicyError : Type 0 where
  not_registered disabled severity_exceeds_policy : PolicyError
  invalid_group_id group_not_authorized unavailable : PolicyError
  not_json not_an_array invalid_policy not_an_integer : PolicyError
  unknown_severity missing_key wrong_type : PolicyError

-- `isinstance(exc, ValueError)`
abbrev pub is_value_error : PolicyError → Bool
is_value_error unknown_severity = false
is_value_error missing_key = false
is_value_error wrong_type = false
is_value_error _ = true

-- `policy.allowed_resource_groups` and the other attributes that an unregistered caller gets.
abbrev pub unregistered_policy : String → ℕ → CallerPolicy
unregistered_policy appid default_quota = record {
  appid = appid;
  display_name = appid;
  enabled = true;
  maximum_severity = "critical";
  maximum_concurrent_investigations = default_quota;
  allowed_resource_groups = [];
}

-- `not policies`
abbrev pub is_empty {ℓ} : {V : Type ℓ} → Dict V → Bool
is_empty [] = true
is_empty (e ∷ d) = false

unfoldable pub get : CallerPolicyStore → String → Result PolicyError CallerPolicy
get store appid = elim (lookup appid store.policies) [
  | some policy ↦ ok policy
  | none ↦
      if is_empty store.policies && store.allow_unregistered
      then ok (unregistered_policy appid store.default_quota)
      else err not_registered
]

-- `SEVERITY_ORDER[severity]`
abbrev pub severity_order : String → Result PolicyError ℕ
severity_order severity = elim (severity_rank severity) [
  | none ↦ err unknown_severity
  | some n ↦ ok n
]

unfoldable pub authorize : CallerPolicyStore → String → String → Result PolicyError CallerPolicy
authorize store appid severity = do
  policy ← get store appid
  require policy.enabled disabled
  requested ← severity_order severity
  maximum ← severity_order policy.maximum_severity
  require (not (ltb maximum requested)) severity_exceeds_policy
  ok policy

unfoldable pub authorize_resource_group :
    CallerPolicyStore → String → String → Result PolicyError CallerPolicy
authorize_resource_group store appid resource_group_id = do
  policy ← get store appid
  let normalized = lower (strip resource_group_id)
  require policy.enabled disabled
  require (is_resource_group_id normalized) invalid_group_id
  require (is_among normalized policy.allowed_resource_groups) group_not_authorized
  ok policy
