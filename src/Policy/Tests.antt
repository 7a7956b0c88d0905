-- ===== src/Policy/Tests.antt =====
-- escalation-proxy/app/caller_policy.py: concrete policies, settings and clock readings.
use sre_agent_team.Base.{
  Bool, List, ℕ, String, string_discrete, ◌+◌, ◌≤◌, ◌≡◌, refl, ◌↔◌, true, false, none, some, [],
  ◌∷◌, ◌==◌, if◌then◌else◌,
}
use sre_agent_team.Base.Fallible.{ok}
use sre_agent_team.Base.Dict.{insert, lookup}
use sre_agent_team.Base.Text.{codes, strip, lower, is_among}
use sre_agent_team.Base.Int.{pos}
use sre_agent_team.Policy.Json.{
  Json, text, array, object, int, nil, cons, field, end, get_field, truth,
}
use sre_agent_team.Policy.GroupIds.{IsGroupId}
use sre_agent_team.Policy.Severity.{severity_rank}
use sre_agent_team.Policy.Store.{
  CallerPolicy, CallerPolicyStore, get, authorize, authorize_resource_group,
}
use sre_agent_team.Policy.Loading.{
  Builtins, from_json, load_parsed, load_entries, load_entry, make_policy, int_of, str_of, positive,
  groups_of, normalized_groups,
}
use sre_agent_team.Policy.Refresh.{
  Fetched, setting, apply_fetched, is_usable, failure, Intervals, refreshed, refresh,
  require_usable_snapshot,
}
use sre_agent_team.Policy.Access.{
  Ranked, PolicyOf, authorize-ok_iff, authorize_resource_group-ok_iff,
}
use sre_agent_team.Policy.Freshness.{AnsweredBy, decision_is_fresh}
use sre_agent_team.Policy.Confirmed.{Confirms, refresh_all}

abbrev policy : CallerPolicy
policy = record {
  appid = "app";
  display_name = "app";
  enabled = true;
  maximum_severity = "high";
  maximum_concurrent_investigations = 3;
  allowed_resource_groups = [];
}

abbrev group : String
group = "/subscriptions/00000000-0000-0000-0000-000000000000/resourcegroups/shop"

abbrev trusted : CallerPolicy
trusted = record policy { allowed_resource_groups = group ∷ [] }

abbrev store : CallerPolicyStore
store = record { policies = ("app", policy) ∷ []; default_quota = 5; allow_unregistered = false }

-- A configuration service's text for `store`, as `json.loads` reads it.
abbrev entries : Json
entries = array (
    cons
      (object (
        field "appid" (text "app") (
          field "maximum_severity" (text "high")
            (field "maximum_concurrent_investigations" (int (pos 3)) end))))
      nil)

abbrev python : Builtins
python = record {
  loads = λ s. if s == "[app]" then some entries else none;
  printed = λ _. "";
  parse_int = λ _. none;
}

abbrev intervals : Intervals
intervals = record {
  default_quota = 5;
  refresh_interval_seconds = 30;
  maximum_staleness_seconds = 300;
}

authorize-ok_iff_example : (authorize store "app" "medium" ≡ ok policy) ↔ (
    PolicyOf store "app" policy
    × (policy.enabled ≡ true)
    × (m : ℕ) × (n : ℕ) × Ranked "medium" m
    × Ranked policy.maximum_severity n
    × (m ≤ n))
authorize-ok_iff_example = authorize-ok_iff store "app" "medium" policy

abbrev trusting : CallerPolicyStore
trusting = record store { policies = ("app", trusted) ∷ [] }

authorize_resource_group-ok_iff_example :
    (authorize_resource_group trusting "app" group ≡ ok trusted) ↔ (
      (lookup "app" trusting.policies ≡ some trusted)
      × (trusted.enabled ≡ true)
      × IsGroupId (codes (lower (strip group)))
      × (is_among (lower (strip group)) trusted.allowed_resource_groups ≡ true))
authorize_resource_group-ok_iff_example =
    authorize_resource_group-ok_iff trusting "app" group trusted

-- A snapshot is loaded, and confirmed after the interval.
abbrev served : List (Bool × Fetched × ℕ)
served = (false, setting "[app]" "v1", 100) ∷ (false, setting "[]" "v1", 140) ∷ []

decision_is_fresh_example :
    (held_store : CallerPolicyStore) × (last : ℕ) × (get held_store "app" ≡ ok policy)
    × (400 ≤ last + 300)
    × Confirms python intervals
        (AnsweredBy python intervals served false failure 400)
        held_store
        last
unfolding refresh_all refreshed refresh apply_fetched is_usable require_usable_snapshot from_json
    load_parsed load_entries load_entry make_policy int_of str_of positive groups_of
    normalized_groups get_field truth severity_rank strip lower insert get lookup string_discrete
decision_is_fresh_example =
    decision_is_fresh python intervals served false (λ s. get s "app") failure 400 policy refl
