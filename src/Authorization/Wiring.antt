-- ===== src/Authorization/Wiring.antt =====
-- escalation-proxy/app/authorization.py: `build_caller_policy_store`.
use sre_agent_team.Base.{String, true, ◌==◌, if◌then◌else◌}
use sre_agent_team.Base.Fallible.{Result, ok, err}
use sre_agent_team.Policy.Store.{CallerPolicyStore, PolicyError}
use sre_agent_team.Policy.Loading.{Builtins, from_json}
use sre_agent_team.Policy.Refresh.{Intervals, Refreshing, initial}

-- The policies of the environment, or a store that reads them from App Configuration.
pub data PolicyBackend : Type 0 where
  fixed : CallerPolicyStore → PolicyBackend
  configured : Intervals → Refreshing → PolicyBackend

-- `CallerPolicyStore.from_json` has its default `allow_unregistered=True` here.
unfoldable pub build_caller_policy_store :
    Builtins → String → String → Intervals → Result PolicyError PolicyBackend
build_caller_policy_store b app_configuration_endpoint fallback_json c =
    if app_configuration_endpoint == ""
    then (elim (from_json b fallback_json c.default_quota true) [
      | err e ↦ err e
      | ok store ↦ ok (fixed store)
    ])
    else ok (configured c initial)
