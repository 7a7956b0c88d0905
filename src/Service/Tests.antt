-- ===== src/Service/Tests.antt =====
-- escalation-proxy/app/investigation_service.py: concrete requests on the in-memory registry.
use sre_agent_team.Base.{
  length, ◌+◌, ◌≤◌, string_discrete, suc, ◌≡◌, ◌≢◌, refl, ◌⊎◌, true, none, some, [], ◌∷◌, arith,
}
use sre_agent_team.Base.Fallible.{ok}
use sre_agent_team.Base.Dict.{lookup, insert, update}
use sre_agent_team.Base.Text.{strip, lower}
use sre_agent_team.Base.Int.{pos}
use sre_agent_team.Http.{http}
use sre_agent_team.Policy.Json.{get_field}
use sre_agent_team.Policy.Severity.{severity_rank}
use sre_agent_team.Authorization.Claims.{validate_requested_severity, against_claim, without_claim}
use sre_agent_team.Registry.Record.{empty, defaults}
use sre_agent_team.Registry.Reads.{
  cleanup_expired, expired_ids, erase_all, active_count, find_by_idempotency_key, find_key,
  get_investigation,
}
use sre_agent_team.Registry.Lifecycle.{
  set_terminal, polled_too_soon, complete_investigation, record_summary_poll, admit_summary_poll,
  record_findings_metadata,
}
use sre_agent_team.Registry.Admission.{
  reserve_investigation, reserve_clean, admit, existing_reservation, finalize_reservation,
}
use sre_agent_team.Registry.Quota.{cleaned}
use sre_agent_team.Service.Request.{check_texts, check_rest, reservation_request}
use sre_agent_team.Service.Create.{
  settle, send, reserve_and_send, create_admitted, create_authorized, create_checked,
  create_investigation,
}
use sre_agent_team.Service.Fetch.{last_messages, agent_texts}
use sre_agent_team.Service.Poll.{
  wait_budget, sleep_time, get_status, authorize_read, readable_record, has_no_outcome,
}
use sre_agent_team.Service.Summary.{get_summary, summarize, complete_summary}
use sre_agent_team.Service.Memory.{memory_registry}
use sre_agent_team.Service.Admission.{Admitted, sends_only-Admitted}
use sre_agent_team.Service.Calls.{failed_token_keeps_slots, retry_sends_nothing}
use sre_agent_team.Service.Waiting.{get_status_returns}
use sre_agent_team.Service.Responses.{findings_of, findings_response, respond, v1_findings_response}
use sre_agent_team.Service.Disclosure.{
  IsFixed, v1_findings-IsFixed, DisclosesVerdict, summary-DisclosesVerdict,
}
use sre_agent_team.Service.Samples.{
  granting, config, severities, caller, request, outside, cut_off, readings, alone, rounds, poll,
  created, chosen, findings, agent_message, summary_reply, told,
}

sends_only-Admitted_example :
    Admitted granting
      (memory_registry defaults readings 101)
      alone
      config
      severities
      outside
      request
      caller
      "k"
      empty
unfolding create_investigation check_texts validate_requested_severity against_claim without_claim
    severity_rank strip lower get_field create_checked check_rest create_authorized create_admitted
    find_by_idempotency_key find_key reserve_and_send reservation_request reserve_investigation
    reserve_clean admit existing_reservation active_count cleanup_expired expired_ids erase_all send
    settle finalize_reservation insert lookup string_discrete
sends_only-Admitted_example =
    sends_only-Admitted granting (memory_registry defaults readings 101) alone config severities
      outside request caller "k" empty (ground arith)

failed_token_keeps_slots_example :
    let left =
      (create_investigation granting
        (memory_registry defaults readings 101)
        (λ _ w. w)
        config
        severities
        cut_off
        request
        caller
        "k"
        empty).world in
    (left.records ≡ empty.records) ⊎ (left.records ≡ (cleaned defaults readings empty).records)
unfolding cleanup_expired expired_ids erase_all lookup
failed_token_keeps_slots_example =
    failed_token_keeps_slots granting defaults config severities cut_off readings 101 request caller
      "k" empty (http 500) (λ _ _ _. refl, λ _ _ _. refl) refl refl

retry_sends_nothing_example :
    let first =
      create_investigation granting
        (memory_registry defaults readings 101)
        (λ _ w. w)
        config
        severities
        outside
        request
        caller
        "k"
        empty in
    let second =
      create_investigation granting
        (memory_registry defaults readings 103)
        (λ _ w. w)
        config
        severities
        outside
        request
        caller
        "k"
        first.world in
    length first.posts + length second.posts ≤ 1
unfolding create_investigation check_texts validate_requested_severity against_claim without_claim
    severity_rank strip lower get_field create_checked check_rest create_authorized create_admitted
    find_by_idempotency_key find_key reserve_and_send reservation_request reserve_investigation
    reserve_clean admit existing_reservation active_count cleanup_expired expired_ids erase_all send
    settle finalize_reservation insert lookup string_discrete
retry_sends_nothing_example =
    retry_sends_nothing granting defaults config severities outside outside readings readings 101
      103 request request caller "k" empty (λ _ _ _. refl, λ _ _ _. refl) refl (omega arith)

get_status_returns_example :
    (get_status granting
      (memory_registry defaults readings 101)
      alone
      config
      (suc (wait_budget config (pos 10)))
      rounds
      poll
      caller
      created).0
    ≢ none
unfolding sleep_time wait_budget
get_status_returns_example =
    get_status_returns granting (memory_registry defaults readings 101) alone config rounds poll
      caller created (omega arith) (omega arith) (λ n. (omega arith, ground arith))

summary-DisclosesVerdict_example : DisclosesVerdict summary_reply
unfolding get_summary readable_record authorize_read get_investigation has_no_outcome
    record_summary_poll admit_summary_poll polled_too_soon last_messages agent_texts summarize
    complete_summary complete_investigation record_findings_metadata lookup update strip
    string_discrete set_terminal
summary-DisclosesVerdict_example =
    summary-DisclosesVerdict granting (memory_registry defaults readings 101) alone config
      (λ _. chosen) (λ _ _. true) (λ s. s) (λ _. some findings) (ok (agent_message ∷ [])) poll
      caller created summary_reply refl

v1_findings-IsFixed_example : IsFixed told.findings
unfolding get_summary readable_record authorize_read get_investigation has_no_outcome
    record_summary_poll admit_summary_poll polled_too_soon last_messages agent_texts summarize
    complete_summary complete_investigation record_findings_metadata lookup update strip
    string_discrete set_terminal v1_findings_response respond findings_response findings_of
v1_findings-IsFixed_example =
    v1_findings-IsFixed granting (memory_registry defaults readings 101) alone config (λ _. chosen)
      (λ _ _. true) (λ s. s) (λ _. some findings) (ok (agent_message ∷ [])) poll caller created
      created summary_reply "i-1" 500 told refl refl
