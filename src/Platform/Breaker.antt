-- ===== src/Platform/Breaker.antt =====
-- escalation-proxy/app/platform_client.py: `PlatformCircuitBreaker`. A method that takes the lock is
-- one step; its reading of the monotonic clock is an argument.
use sre_agent_team.Base.{
  ℕ, ◌+◌, Bool, true, false, not, ◌||◌, Option, none, some, ltb, leb, if◌then◌else◌,
}

pub record Breaker : Type 0 where
  pub failure_threshold : ℕ
  pub recovery_seconds : ℕ
  pub failure_count : ℕ
  pub opened_at : Option ℕ
  pub probe_in_flight : Bool

-- `PlatformCircuitBreaker(failure_threshold, recovery_seconds)`
unfoldable pub closed_breaker : ℕ → ℕ → Breaker
closed_breaker failure_threshold recovery_seconds = record {
  failure_threshold = failure_threshold;
  recovery_seconds = recovery_seconds;
  failure_count = 0;
  opened_at = none;
  probe_in_flight = false;
}

-- Whether the request may be sent, where the code raises a 503 if it may not.
unfoldable pub before_request : ℕ → Breaker → Bool × Breaker
before_request now b = elim b.opened_at [
  | none ↦ (true, b)
  | some opened ↦
      if ltb now (opened + b.recovery_seconds) || b.probe_in_flight
      then (false, b)
      else (true, record b { probe_in_flight = true })
]

unfoldable pub is_available : Breaker → Bool
is_available b = elim b.opened_at [ none ↦ not b.probe_in_flight | some _ ↦ false ]

unfoldable pub record_success : Breaker → Breaker
record_success b = record b { failure_count = 0; opened_at = none; probe_in_flight = false }

unfoldable pub record_failure : ℕ → Breaker → Breaker
record_failure now b =
    let failures = b.failure_count + 1 in
    record b {
      probe_in_flight = false;
      failure_count = failures;
      opened_at = if leb b.failure_threshold failures then some now else b.opened_at;
    }
