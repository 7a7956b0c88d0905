-- ===== src/Platform/Tests.antt =====
-- escalation-proxy/app/platform_client.py: concrete clients, breakers and clock readings.
use sre_agent_team.Base.{
  ℕ, ◌≡◌, refl, inl, true, false, some, List, [], ◌∷◌, arith, ltb, All, if◌then◌else◌,
}
use sre_agent_team.Platform.Breaker.{Breaker, before_request, is_available}
use sre_agent_team.Platform.Request.{
  Attempt, response, timeout, Limits, returned, unavailable, platform_request, is_retryable_method,
  judge, attempt_loop,
}
use sre_agent_team.Platform.Retries.{allowed, first_settled, platform_request_outcome}
use sre_agent_team.Platform.Circuit.{probe_decides}
use sre_agent_team.Platform.Wedged.{Request, request_all, unrecorded_probe_wedges}

abbrev limits : Limits
limits = record { max_attempts = 3; max_response_bytes = 1000 }

-- A client whose second attempt succeeds.
abbrev flaky : ℕ → Attempt
flaky n = if ltb n 1 then timeout else response 200 10

abbrev huge : ℕ → Attempt
huge _ = response 200 5000

abbrev times : List ℕ
times = 1 ∷ 2 ∷ []

abbrev tripped : Breaker
tripped = record {
  failure_threshold = 5;
  recovery_seconds = 30;
  failure_count = 5;
  opened_at = some 100;
  probe_in_flight = false;
}

abbrev next : Request
next = record { method = "GET"; client = flaky; start = 900; end = 901 }

platform_request_outcome_example :
    (platform_request limits "GET" flaky 200 201 tripped).0
    ≡ first_settled (allowed (is_retryable_method "GET") 3) 0 (λ i. judge 1000 (flaky i))
unfolding before_request
platform_request_outcome_example = platform_request_outcome limits flaky "GET" 200 201 tripped refl

probe_decides_example :
    let (outcome, _, b') = platform_request limits "GET" flaky 200 210 tripped in
    ((status size : ℕ) → outcome ≡ returned status size → is_available b' ≡ true)
    × (outcome ≡ unavailable
        → platform_request limits "POST" huge 220 221 b' ≡ (unavailable, 0, b'))
probe_decides_example =
    probe_decides limits "GET" "POST" flaky huge 200 210 220 221 tripped 100 refl (omega arith) refl
      (omega arith) (omega arith)

unrecorded_probe_wedges_example :
    let b' = (platform_request limits "POST" huge 200 210 tripped).2 in
    (is_available b' ≡ false) × All (λ r. r ≡ (unavailable, 0)) (request_all limits (next ∷ []) b')
unfolding platform_request before_request attempt_loop judge
unrecorded_probe_wedges_example =
    unrecorded_probe_wedges limits "POST" huge 200 210 tripped 100 (next ∷ []) refl (omega arith)
      refl (inl refl)
