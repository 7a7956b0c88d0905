-- ===== src/Platform/Circuit.antt =====
-- escalation-proxy/app/platform_client.py: when the circuit breaker opens, and how it closes again.
use sre_agent_team.Base.{
  ℕ, ◌+◌, ◌≤◌, ◌<◌, ◌≡◌, refl, ◌↔◌, ◌≢◌, inl, inr, Bool-cases, true, false, String, none, some,
  List, [], ◌∷◌, arith, leb, length,
}
use sre_agent_team.Platform.Breaker.{
  Breaker, closed_breaker, before_request, is_available, record_success, record_failure,
}
use sre_agent_team.Platform.Request.{
  Attempt, Limits, returned, unavailable, platform_request, settle,
}

-- Failures recorded one after the other, at these times.
unfoldable pub fail_at : List ℕ → Breaker → Breaker
fail_at [] b = b
fail_at (t ∷ ts) b = fail_at ts (record_failure t b)

fail_at-facts :
    (ts : List ℕ) (b : Breaker)
    → let b' = fail_at ts b in
      (b'.failure_count ≡ b.failure_count + length ts)
      × (b'.failure_threshold ≡ b.failure_threshold)
      × (b'.recovery_seconds ≡ b.recovery_seconds)
unfolding fail_at record_failure
fail_at-facts [] b = ground arith
fail_at-facts (t ∷ ts) b = ground (arith, fail_at-facts ts (record_failure t b))

stays_open :
    (ts : List ℕ) (b : Breaker) (t : ℕ) → b.opened_at ≡ some t → (fail_at ts b).opened_at ≢ none
unfolding fail_at record_failure
stays_open [] b t is_open = cc
stays_open (u ∷ ts) b t is_open =
    elim (Bool-cases (leb b.failure_threshold (b.failure_count + 1))) [
      | inl reached ↦ stays_open ts (record_failure u b) u (ground arith)
      | inr below ↦ stays_open ts (record_failure u b) t (ground arith)
    ]

opens_at :
    (ts : List ℕ) (b : Breaker)
    → b.opened_at ≡ none
    → b.failure_count < b.failure_threshold
    → ((fail_at ts b).opened_at ≡ none) ↔ (b.failure_count + length ts < b.failure_threshold)
unfolding fail_at record_failure
opens_at [] b closed below = (λ e. omega arith, λ h. closed)
opens_at (u ∷ ts) b closed below =
    elim (Bool-cases (leb b.failure_threshold (b.failure_count + 1))) [
      | inl reached ↦ (
        λ e. absurd (stays_open ts (record_failure u b) u (ground arith) e),
        λ h. absurd (ground arith),
      )
      | inr room ↦
          let ih = opens_at ts (record_failure u b) (ground arith) (ground arith) in
          (λ e. omega (arith, ih.0 e), λ h. ih.1 (omega arith))
    ]

-- A closed breaker opens with the failure that reaches its threshold, and not before: after a run of
-- failures it is closed exactly while they are fewer than the threshold.
pub opens_at_threshold :
    (threshold recovery : ℕ) (ts : List ℕ)
    → 1 ≤ threshold
    → ((fail_at ts (closed_breaker threshold recovery)).opened_at ≡ none) ↔ (length ts < threshold)
unfolding closed_breaker
opens_at_threshold threshold recovery ts pos =
    let both = opens_at ts (closed_breaker threshold recovery) refl (omega arith) in
    (λ e. omega (arith, both.0 e), λ h. both.1 (omega arith))

-- Once the recovery time has passed, an open breaker admits one request, the probe, and until that is
-- recorded no other, however late.
pub one_probe :
    (now later : ℕ) (b : Breaker) (opened : ℕ)
    → b.opened_at ≡ some opened
    → opened + b.recovery_seconds ≤ now
    → b.probe_in_flight ≡ false
    → let (admitted, b') = before_request now b in
      (admitted ≡ true) × (before_request later b' ≡ (false, b'))
unfolding before_request
one_probe now later b opened is_open recovered idle = ground arith

-- A probe that returns a response closes the breaker. One that ends in a 503, with the failures at
-- the threshold, opens it anew: until the recovery time has passed again, calls are answered with a
-- 503, send nothing and change nothing.
pub probe_decides :
    (c : Limits) (method method' : String) (client client' : ℕ → Attempt)
    (start end start' end' : ℕ) (b : Breaker) (opened : ℕ)
    → b.opened_at ≡ some opened
    → opened + b.recovery_seconds ≤ start
    → b.probe_in_flight ≡ false
    → b.failure_threshold ≤ b.failure_count
    → start' < end + b.recovery_seconds
    → let (outcome, _, b') = platform_request c method client start end b in
      ((status size : ℕ) → outcome ≡ returned status size → is_available b' ≡ true)
      × (outcome ≡ unavailable
          → platform_request c method' client' start' end' b' ≡ (unavailable, 0, b'))
unfolding platform_request before_request settle record_success record_failure is_available
probe_decides c method method' client client' start end start' end' b opened is_open recovered idle
      reached soon =
    (λ status size e. ground arith, λ e. ground arith)
