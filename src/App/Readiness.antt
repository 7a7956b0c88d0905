-- ===== src/App/Readiness.antt =====
-- escalation-proxy/app/main.py: `_probe_readiness_dependency` and `readiness_check`. A time is a reading of the
-- monotonic clock.
use sre_agent_team.Base.{
  ℕ, ◌+◌, Bool, not, ◌&&◌, String, Option, none, some, List, [], ◌∷◌, eqb, ltb, ◌==◌, if◌then◌else◌,
}

-- `_readiness_cache`: the time of the probe, and the dependency that failed.
pub record Cache : Type 0 where
  pub cached_at : ℕ
  pub cached_failure : Option String

-- `READINESS_CACHE_SECONDS and now - cached_at < READINESS_CACHE_SECONDS`
unfoldable pub is_fresh : ℕ → ℕ → Cache → Bool
is_fresh cache_seconds now cache =
    not (eqb cache_seconds 0) && ltb now (cache.cached_at + cache_seconds)

-- The checks of the dependencies: whether each returns, in its time, without raising. `W` is what they
-- change; `available` is whether the circuit breaker lets requests through.
pub record Dependencies (W : Type 0) : Type 0 where
  pub caller_policy : W → Bool × W
  pub registry : W → Bool × W
  pub platform_identity : W → Bool × W
  pub available : W → Bool

module _ {W : Type 0} (d : Dependencies W) (cache_seconds : ℕ) where
  -- The `for` loop: the first dependency that fails.
  unfoldable pub first_failure : List (String × (W → Bool × W)) → W → Option String × W
  first_failure [] w = (none, w)
  first_failure ((name, check) ∷ checks) w =
      let (passes, w') = check w in
      let rest = first_failure checks w' in if passes then rest else (some name, w')

  abbrev pub checks : List (String × (W → Bool × W))
  checks =
      ("caller_policy", d.caller_policy)
      ∷ ("registry", d.registry)
      ∷ ("platform_identity", d.platform_identity)
      ∷ []

  abbrev pub or_circuit : Option String × W → Option String × W
  or_circuit (some name, w) = (some name, w)
  or_circuit (none, w) = (if d.available w then none else some "platform_circuit", w)

  -- The probe with the lock held, at its second reading of the clock.
  unfoldable pub probe_locked : ℕ → Cache → W → Option String × Cache × W
  probe_locked now cache w =
      let (failure, w') = or_circuit (first_failure checks w) in
      if is_fresh cache_seconds now cache
      then (cache.cached_failure, cache, w)
      else (failure, record { cached_at = now; cached_failure = failure }, w')

  -- `others` is what the other tasks make of the cache while this one waits for the lock.
  unfoldable pub probe_readiness_dependency :
      (Cache → Cache) → ℕ → ℕ → Cache → W → Option String × Cache × W
  probe_readiness_dependency others now later cache w =
      if is_fresh cache_seconds now cache
      then (cache.cached_failure, cache, w)
      else probe_locked later (others cache) w

-- The status of the answer; `probed` is none where the probe took too long.
unfoldable pub readiness_status : Option (Option String) → ℕ
readiness_status none = 503
readiness_status (some none) = 200
readiness_status (some (some name)) = if name == "" then 200 else 503
