-- ===== src/Platform/Wedged.antt =====
-- escalation-proxy/app/platform_client.py: a probe that ends without being recorded.
use sre_agent_team.Base.{
  ℕ, ◌+◌, ◌≤◌, ◌≡◌, refl, ◌⊎◌, true, false, String, some, List, [], ◌∷◌, arith, All,
}
use sre_agent_team.Platform.Breaker.{Breaker, before_request, is_available}
use sre_agent_team.Platform.Request.{
  Attempt, Limits, Outcome, unavailable, oversized, escaped, platform_request, settle,
}

-- A later call: its method, what the client would give, and its clock readings.
pub record Request : Type 0 where
  pub method : String
  pub client : ℕ → Attempt
  pub start : ℕ
  pub end : ℕ

-- The outcomes of calls made one after the other, with the requests that each sends.
unfoldable pub request_all : Limits → List Request → Breaker → List (Outcome × ℕ)
request_all c [] b = []
request_all c (q ∷ qs) b =
    let (outcome, sent, b') = platform_request c q.method q.client q.start q.end b in
    (outcome, sent) ∷ request_all c qs b'

stuck_refuses :
    (c : Limits) (qs : List Request) (b : Breaker) (opened : ℕ)
    → b.opened_at ≡ some opened
    → b.probe_in_flight ≡ true
    → All (λ r. r ≡ (unavailable, 0)) (request_all c qs b)
unfolding request_all platform_request before_request
stuck_refuses c [] b opened is_open probing = tt
stuck_refuses c (q ∷ qs) b opened is_open probing =
    ground (arith, stuck_refuses c qs b opened is_open probing)

-- If a probe's response is larger than allowed, or the client raises an exception that is not caught,
-- the probe is never recorded: the breaker is not available, and every later call, at whatever time,
-- is answered with a 503 and sends nothing.
pub unrecorded_probe_wedges :
    (c : Limits) (method : String) (client : ℕ → Attempt) (start end : ℕ) (b : Breaker) (opened : ℕ)
    (later : List Request)
    → b.opened_at ≡ some opened
    → opened + b.recovery_seconds ≤ start
    → b.probe_in_flight ≡ false
    → let (outcome, _, b') = platform_request c method client start end b in
      (outcome ≡ oversized) ⊎ (outcome ≡ escaped)
      → (is_available b' ≡ false) × All (λ r. r ≡ (unavailable, 0)) (request_all c later b')
unfolding platform_request before_request settle is_available
unrecorded_probe_wedges c method client start end b opened later is_open recovered idle ended =
    ground (arith, stuck_refuses c later (record b { probe_in_flight = true }) opened is_open refl)
