-- ===== src/Service/Poll.antt =====
-- escalation-proxy/app/investigation_service.py: `get_status`, with its wait for an end.
use sre_agent_team.Base.{
  ℕ, zero, suc, ◌+◌, ◌-◌, min, Bool, true, false, not, ◌&&◌, String, Option, none, some, ltb, ◌==◌,
  if◌then◌else◌,
}
use sre_agent_team.Base.Fallible.{Result, ok, err}
use sre_agent_team.Base.Int.{ℤ, pos, negsuc}
use sre_agent_team.Http.{HttpException, http}
use sre_agent_team.Registry.Record.{
  InvestigationRecord, status_rate_limit, maximum_status_polls, ReservationState, reserved, active,
  completed, failed,
}
use sre_agent_team.Service.Interfaces.{
  PolicyOps, RegistryOps, Raised, value_error, uncaught, Config, GetRequest, Caller,
}
use sre_agent_team.Service.Request.{policy_refusal}
use sre_agent_team.Service.Fetch.{Status, is_failed, is_terminal}

-- What a wait takes from outside: the clock when the deadline is set, when the n-th round tests it and
-- when that round sets its sleep, and the status that the n-th round fetches.
pub record Rounds : Type 0 where
  pub start : ℕ
  pub tested : ℕ → ℕ
  pub asked : ℕ → ℕ
  pub fetched : ℕ → Result HttpException Status

-- `max(0, min(req.wait_seconds, max_status_wait_seconds))`
unfoldable pub wait_budget : Config → ℤ → ℕ
wait_budget c (pos n) = min n c.max_status_wait_seconds
wait_budget c (negsuc n) = 0

-- `min(status_poll_interval_seconds, max(0, deadline - monotonic()))`
unfoldable pub sleep_time : ℕ → ℕ → ℕ → ℕ
sleep_time interval deadline now = min interval (deadline - now)

-- The loop from its n-th round on; nothing where the fuel does not suffice.
unfoldable pub wait : Rounds → ℕ → ℕ → ℕ → Option (Result HttpException Status)
wait w deadline zero n = none
wait w deadline (suc fuel) n =
    let rest = wait w deadline fuel (suc n) in
    elim (w.fetched n) [
      | err e ↦ some (err e)
      | ok status ↦
          if not (is_terminal status) && ltb (w.tested n) deadline then rest else some (ok status)
    ]

abbrev pub is_failed_state : ReservationState → Bool
is_failed_state reserved = false
is_failed_state active = false
is_failed_state completed = false
is_failed_state failed = true

-- `reservation_state == "failed" and not platform_thread_id`
unfoldable pub has_no_outcome : InvestigationRecord → Bool
has_no_outcome r = is_failed_state r.reservation_state && r.platform_thread_id == ""

-- What a caller sees where the record cannot be read.
abbrev pub lookup_refusal : Raised → HttpException
lookup_refusal (value_error _) = http 404
lookup_refusal uncaught = http 500

unfoldable pub status_poll_refusal : InvestigationRecord → Raised → HttpException
status_poll_refusal r (value_error status_rate_limit) = record {
  status_code = 429;
  correlation_id = some r.request_correlation_id;
}
status_poll_refusal r (value_error maximum_status_polls) = record {
  status_code = 429;
  correlation_id = some r.request_correlation_id;
}
status_poll_refusal r (value_error _) = http 404
status_poll_refusal r uncaught = http 500

abbrev pub terminal_state : Status → ReservationState
terminal_state is_failed = failed
terminal_state _ = completed

module _ {W : Type 0} (policies : PolicyOps W) (registry : RegistryOps W) (others : ℕ → W → W)
    (c : Config) where
  -- `_authorize_read`
  unfoldable pub authorize_read : Caller → W → Result HttpException (Unit {0}) × W
  authorize_read caller w =
      let (admission, w') = policies.authorize caller.appid "low" (others 0 w) in
      elim admission [ err e ↦ (err (policy_refusal e), w') | ok _ ↦ (ok tt, w') ]

  -- The read check, and the record of the investigation.
  unfoldable pub readable_record :
      String → Caller → W → Result HttpException InvestigationRecord × W
  readable_record id caller w =
      let (admission, w') = authorize_read caller w in
      elim admission [
        | err e ↦ (err e, w')
        | ok _ ↦
            let (found, w'') =
              registry.get_investigation id caller.oid caller.appid (others 1 w') in
            elim found [ err e ↦ (err (lookup_refusal e), w'') | ok r ↦ (ok r, w'') ]
      ]

  -- The rest of `get_status`, from the status on.
  unfoldable pub finish :
      String
      → Caller
      → Option (Result HttpException Status)
      → W
      → Option (Result HttpException Status) × W
  finish id caller none w = (none, w)
  finish id caller (some (err e)) w = (some (err e), w)
  finish id caller (some (ok status)) w =
      if not (is_terminal status)
      then (some (ok status), w)
      else (let (result, w') =
            registry.complete_investigation id caller.appid (terminal_state status) (others 3 w) in
          elim result [ err _ ↦ (some (err (http 500)), w') | ok _ ↦ (some (ok status), w') ])

  -- `fuel` bounds the rounds; `others 3` is also what happens while the call waits.
  unfoldable pub get_status :
      ℕ → Rounds → GetRequest → Caller → W → Option (Result HttpException Status) × W
  get_status fuel rounds req caller w =
      let (found, w') = readable_record req.investigation_id caller w in
      elim found [
        | err e ↦ (some (err e), w')
        | ok r ↦
            if has_no_outcome r
            then (some (ok is_failed), w')
            else (let (polled, w'') =
                  registry.record_status_poll req.investigation_id caller.oid caller.appid
                    (others 2 w') in
                elim polled [
                  | err e ↦ (some (err (status_poll_refusal r e)), w'')
                  | ok _ ↦
                      finish req.investigation_id caller
                        (wait rounds (rounds.start + wait_budget c req.wait_seconds) fuel 0) w''
                ])
      ]
