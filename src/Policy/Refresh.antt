-- ===== src/Policy/Refresh.antt =====
-- escalation-proxy/app/caller_policy.py: `RefreshingCallerPolicyStore`, which reads the policies from
-- App Configuration. A call's clock reading and the answer of the configuration service are its
-- arguments; the answer counts only where the service is asked.
use sre_agent_team.Base.{
  ℕ, ◌+◌, Bool, true, false, not, ◌&&◌, String, Option, none, some, ltb, leb, ◌==◌, if◌then◌else◌,
}
use sre_agent_team.Base.Fallible.{Result, ok, err, ◌>>=◌}
use sre_agent_team.Policy.Store.{
  CallerPolicy, CallerPolicyStore, PolicyError, unavailable, get, authorize,
  authorize_resource_group,
}
use sre_agent_team.Policy.Loading.{Builtins, from_json}

-- What `get_configuration_setting` gives: a setting with its text and its tag, nothing, or an error.
pub data Fetched : Type 0 where
  setting : String → String → Fetched
  missing failure : Fetched

pub record Intervals : Type 0 where
  pub default_quota : ℕ
  pub refresh_interval_seconds : ℕ
  pub maximum_staleness_seconds : ℕ

-- `last_refresh_attempt` is nothing where the code holds minus infinity.
pub record Refreshing : Type 0 where
  pub store : Option CallerPolicyStore
  pub etag : Option String
  pub last_refresh_attempt : Option ℕ
  pub last_success : ℕ

abbrev pub initial : Refreshing
initial = record { store = none; etag = none; last_refresh_attempt = none; last_success = 0 }

-- `now - self._last_refresh_attempt < self._refresh_interval_seconds`
abbrev pub attempted_recently : Option ℕ → ℕ → ℕ → Bool
attempted_recently none now interval = false
attempted_recently (some last) now interval = ltb now (last + interval)

-- `self._store is None or setting.etag != self._etag`
abbrev pub needs_loading : Option CallerPolicyStore → Option String → String → Bool
needs_loading none known tag = true
needs_loading (some _) none tag = true
needs_loading (some _) (some known) tag = not (tag == known)

module _ (b : Builtins) (c : Intervals) where
  -- The `try` block; `Refreshing` is the state that it leaves, also where it raises.
  unfoldable pub apply_fetched :
      Fetched → ℕ → Refreshing → Result (Unit {0}) (Unit {0}) × Refreshing
  apply_fetched failure now s = (err tt, s)
  apply_fetched missing now s = (err tt, s)
  apply_fetched (setting value tag) now s =
      if needs_loading s.store s.etag tag
      then (elim (from_json b value c.default_quota false) [
        | err _ ↦ (err tt, s)
        | ok loaded ↦ (ok tt, record s { store = some loaded; etag = some tag; last_success = now })
      ])
      else (ok tt, record s { last_success = now })

  -- `self._store is not None and now - self._last_success <= self._maximum_staleness_seconds`
  unfoldable pub is_usable : ℕ → Refreshing → Bool
  is_usable now s = elim s.store [
    | none ↦ false
    | some _ ↦ leb now (s.last_success + c.maximum_staleness_seconds)
  ]

  -- The result is the clock reading.
  unfoldable pub refresh : Bool → Fetched → ℕ → Refreshing → Result PolicyError ℕ × Refreshing
  refresh force fetched now s =
      if not force && attempted_recently s.last_refresh_attempt now c.refresh_interval_seconds
      then (ok now, s)
      else let (outcome, s') =
          apply_fetched fetched now (record s { last_refresh_attempt = some now }) in
        elim outcome [
          | ok _ ↦ (ok now, s')
          | err _ ↦ if is_usable now s' then (ok now, s') else (err unavailable, s')
        ]

  unfoldable pub require_usable_snapshot : ℕ → Refreshing → Result PolicyError CallerPolicyStore
  require_usable_snapshot now s = elim s.store [
    | none ↦ err unavailable
    | some store ↦
        if ltb (s.last_success + c.maximum_staleness_seconds) now then err unavailable else ok store
  ]

  -- A refresh, then `ask` of a usable snapshot.
  unfoldable pub refreshed {ℓ} :
      {A : Type ℓ}
      → Bool
      → (CallerPolicyStore → Result PolicyError A)
      → Fetched
      → ℕ
      → Refreshing
      → Result PolicyError A × Refreshing
  refreshed force ask fetched now s =
      let (read, s') = refresh force fetched now s in
      (read >>= λ t. require_usable_snapshot t s' >>= ask, s')

  unfoldable pub refreshed_get :
      String → Fetched → ℕ → Refreshing → Result PolicyError CallerPolicy × Refreshing
  refreshed_get appid = refreshed false (λ store. get store appid)

  unfoldable pub refreshed_authorize :
      String → String → Fetched → ℕ → Refreshing → Result PolicyError CallerPolicy × Refreshing
  refreshed_authorize appid severity = refreshed false (λ store. authorize store appid severity)

  unfoldable pub refreshed_authorize_resource_group :
      String → String → Fetched → ℕ → Refreshing → Result PolicyError CallerPolicy × Refreshing
  refreshed_authorize_resource_group appid resource_group_id =
      refreshed false (λ store. authorize_resource_group store appid resource_group_id)

  unfoldable pub health_check :
      Fetched → ℕ → Refreshing → Result PolicyError (Unit {0}) × Refreshing
  health_check = refreshed true (λ _. ok tt)
