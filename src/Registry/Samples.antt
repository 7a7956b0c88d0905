-- ===== src/Registry/Samples.antt =====
-- escalation-proxy/app/investigation_registry.py: concrete requests, records and registries.
use sre_agent_team.Base.{ℕ, true, false, String, [], ◌∷◌}
use sre_agent_team.Registry.Record.{InvestigationRecord, Registry, reserved, active, completed}
use sre_agent_team.Registry.Admission.{ReservationRequest, Readings}
use sre_agent_team.Registry.Invariant.{Call, finalizes}

abbrev pub request : ReservationRequest
request = record {
  caller_oid = "owner";
  caller_appid = "app";
  workload_name = "shop";
  workload_identity_appid = "app";
  severity = "high";
  maximum_investigations = 2;
  idempotency_key = "retry-1";
  request_fingerprint = "f00d";
  request_correlation_id = "c-1";
  policy_display_name = "Shop";
  policy_enabled = true;
  policy_maximum_severity = "high";
}

abbrev pub reading : ℕ → String → Readings
reading now id = record {
  cleanup_time = now;
  now = now;
  search_clock = λ _. now;
  investigation_uuid = id;
  correlation_uuid = "c-2";
}

-- An investigation of "app" that is running on the platform.
abbrev pub running : InvestigationRecord
running = record {
  investigation_id = "i-1";
  caller_oid = "owner";
  caller_appid = "app";
  workload_name = "shop";
  workload_identity_appid = "app";
  platform_thread_id = "t-1";
  severity = "high";
  created_at = 100;
  expires_at = 86500;
  last_status_poll = 200;
  status_poll_count = 1;
  last_summary_poll = 0;
  summary_poll_count = 0;
  request_correlation_id = "c-1";
  idempotency_key = "retry-1";
  request_fingerprint = "f00d";
  reservation_state = active;
  policy_display_name = "Shop";
  policy_enabled = true;
  policy_maximum_severity = "high";
  policy_maximum_concurrent_investigations = 2;
  activated_at = 101;
  completed_at = 0;
  findings_finalized_at = 0;
  findings_schema_version = "";
  findings_schema_valid = false;
  findings_selection_strategy = "";
  findings_redacted = false;
  reconciliation_lease_owner = "";
  reconciliation_lease_expires_at = 0;
}

abbrev pub old : InvestigationRecord
old = record running {
  investigation_id = "i-0";
  created_at = 10;
  expires_at = 50;
  reservation_state = completed;
}

abbrev pub ended : InvestigationRecord
ended = record running { reservation_state = completed; completed_at = 300 }

abbrev pub uncertain : InvestigationRecord
uncertain = record running { reservation_state = reserved; platform_thread_id = "" }

abbrev pub holding : InvestigationRecord → Registry
holding r = record { records = ("i-0", old) ∷ ("i-1", r) ∷ []; workload_investigations = [] }

abbrev pub both_sound : Registry
both_sound = holding running

abbrev pub polled : InvestigationRecord
polled = record running { last_status_poll = 300; status_poll_count = 2 }

abbrev pub again : Call
again = finalizes "i-0" "app" "t-9" 400
