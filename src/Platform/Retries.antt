-- ===== src/Platform/Retries.antt =====
-- escalation-proxy/app/platform_client.py: how often `_platform_request` sends, and what it returns.
use sre_agent_team.Base.{ℕ, zero, suc, ◌+◌, ◌≤◌, ◌≡◌, refl, min, Bool, true, false, String, arith}
use sre_agent_team.Platform.Breaker.{Breaker, before_request}
use sre_agent_team.Platform.Request.{
  Attempt, Limits, Outcome, unavailable, Verdict, settled, transient, judge, attempt_loop,
  is_retryable_method, platform_request,
}

-- The first answer that ends a call, among `n` from the `k`-th on; 503 if all are transient.
unfoldable pub first_settled : ℕ → ℕ → (ℕ → Verdict) → Outcome
first_settled zero k answers = unavailable
first_settled (suc n) k answers =
    let rest = first_settled n (k + 1) answers in
    elim (answers k) [ settled o ↦ o | transient ↦ rest ]

-- The attempts that a method is allowed.
abbrev pub allowed : Bool → ℕ → ℕ
allowed true n = n
allowed false n = min 1 n

module _ (c : Limits) (client : ℕ → Attempt) where
  attempt_loop-sent :
      (retryable : Bool) (rounds k : ℕ)
      → (attempt_loop c retryable client rounds k).1 ≤ allowed retryable rounds
  unfolding attempt_loop
  attempt_loop-sent true zero k = omega arith
  attempt_loop-sent false zero k = omega arith
  attempt_loop-sent true (suc rounds) k = ground (arith, attempt_loop-sent true rounds (k + 1))
  attempt_loop-sent false (suc rounds) k = ground arith

  attempt_loop_outcome :
      (retryable : Bool) (rounds k : ℕ)
      → k + rounds ≡ c.max_attempts
      → (attempt_loop c retryable client rounds k).0
        ≡ first_settled (allowed retryable rounds) k (λ i. judge c.max_response_bytes (client i))
  unfolding attempt_loop first_settled
  attempt_loop_outcome true zero k e = refl
  attempt_loop_outcome false zero k e = refl
  attempt_loop_outcome true (suc zero) k e = ground arith
  attempt_loop_outcome true (suc (suc rounds)) k e =
      ground (arith, attempt_loop_outcome true (suc rounds) (k + 1))
  attempt_loop_outcome false (suc rounds) k e =
      let one : min 1 (suc rounds) ≡ 1 = omega arith in rw one (ground arith)

  -- A call sends no request beyond its maximum of attempts, and one at most if its method is not
  -- GET, HEAD or OPTIONS: a thread is never created twice by a retry.
  pub platform_request-sent :
      (method : String) (start end : ℕ) (b : Breaker)
      → (platform_request c method client start end b).1
        ≤ allowed (is_retryable_method method) c.max_attempts
  unfolding platform_request
  platform_request-sent method start end b =
      ground (arith, attempt_loop-sent (is_retryable_method method) c.max_attempts 0)

  -- A call that the circuit breaker admits ends as the first answer does that is not transient,
  -- among the attempts that its method is allowed, and with a 503 if there is none.
  pub platform_request_outcome :
      (method : String) (start end : ℕ) (b : Breaker)
      → (before_request start b).0 ≡ true
      → (platform_request c method client start end b).0
        ≡ first_settled
            (allowed (is_retryable_method method) c.max_attempts)
            0
            (λ i. judge c.max_response_bytes (client i))
  unfolding platform_request
  platform_request_outcome method start end b admitted =
      ground
        (arith, attempt_loop_outcome (is_retryable_method method) c.max_attempts 0 (omega arith))
