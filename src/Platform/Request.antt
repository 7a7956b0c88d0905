-- ===== src/Platform/Request.antt =====
-- escalation-proxy/app/platform_client.py: `_platform_request` and `_telemetry_path`. The HTTP client
-- is a parameter: what each attempt gives.
use sre_agent_team.Base.{
  ℕ, zero, suc, ◌+◌, Bool, ◌&&◌, ◌||◌, String, [], ◌∷◌, ltb, leb, eqb, ◌==◌, if◌then◌else◌,
}
use sre_agent_team.Base.Text.{is_among, upper, starts_with, ends_with}
use sre_agent_team.Platform.Breaker.{Breaker, before_request, record_success, record_failure}

-- What an attempt gives: a response with its status and the bytes of its content, an
-- `httpx.TimeoutException`, an `httpx.NetworkError`, or any other exception.
pub data Attempt : Type 0 where
  response : ℕ → ℕ → Attempt
  timeout network_error other_error : Attempt

pub record Limits : Type 0 where
  pub max_attempts : ℕ
  pub max_response_bytes : ℕ

-- How a call ends: with a response, with the 503 or the 502 that it raises itself, or with an
-- exception of the client that it does not catch.
pub data Outcome : Type 0 where
  returned : ℕ → ℕ → Outcome
  unavailable oversized escaped : Outcome

-- `retryable_statuses`
unfoldable pub is_retryable_status : ℕ → Bool
is_retryable_status status =
    eqb status 429 || eqb status 500 || eqb status 502 || eqb status 503 || eqb status 504

-- `method.upper() in {"GET", "HEAD", "OPTIONS"}`
unfoldable pub is_retryable_method : String → Bool
is_retryable_method method = is_among (upper method) ("GET" ∷ "HEAD" ∷ "OPTIONS" ∷ [])

-- The end of a round of the loop: a return, an exception, or an error that is kept for later.
pub data Verdict : Type 0 where
  settled : Outcome → Verdict
  transient : Verdict

-- The `try` block on what the client gave. `raise_for_status` raises unless the status is 2xx, and
-- what it raises is caught.
unfoldable pub judge : ℕ → Attempt → Verdict
judge max_response_bytes (response status size) =
    if ltb max_response_bytes size
    then settled oversized
    else if is_retryable_status status
    then transient
    else if leb 200 status && leb status 299
    then settled (returned status size)
    else transient
judge max_response_bytes timeout = transient
judge max_response_bytes network_error = transient
judge max_response_bytes other_error = settled escaped

-- The loop from round `attempt` on, with `rounds` of the range left: how it ends, and how many
-- requests it sends.
unfoldable pub attempt_loop : Limits → Bool → (ℕ → Attempt) → ℕ → ℕ → Outcome × ℕ
attempt_loop c retryable client zero attempt = (unavailable, 0)
attempt_loop c retryable client (suc rounds) attempt =
    let (outcome, sent) = attempt_loop c retryable client rounds (attempt + 1) in
    elim (judge c.max_response_bytes (client attempt)) [
      | settled o ↦ (o, 1)
      | transient ↦
          if retryable && ltb (attempt + 1) c.max_attempts
          then (outcome, suc sent)
          else (unavailable, 1)
    ]

-- What a call leaves of the breaker; `end_time` is the clock when the loop is left.
unfoldable pub settle : Outcome → ℕ → Breaker → Breaker
settle (returned status size) end_time b = record_success b
settle unavailable end_time b = record_failure end_time b
settle oversized end_time b = b
settle escaped end_time b = b

-- The outcome, the number of requests sent, and the breaker.
unfoldable pub platform_request :
    Limits → String → (ℕ → Attempt) → ℕ → ℕ → Breaker → Outcome × ℕ × Breaker
platform_request c method client start_time end_time b =
    let (admitted, b') = before_request start_time b in
    let (outcome, sent) = attempt_loop c (is_retryable_method method) client c.max_attempts 0 in
    if admitted then (outcome, sent, settle outcome end_time b') else (unavailable, 0, b')

unfoldable pub telemetry_path : String → String
telemetry_path path =
    if path == "/threads"
    then path
    else if ends_with path "/messages"
    then "/threads/{thread_id}/messages"
    else if starts_with path "/threads/"
    then "/threads/{thread_id}"
    else "/unknown"
