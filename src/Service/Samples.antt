-- ===== src/Service/Samples.antt =====
-- escalation-proxy/app/investigation_service.py: concrete requests, settings and answers.
use sre_agent_team.Base.{ℕ, ◌+◌, ◌*◌, true, false, some, [], ◌∷◌}
use sre_agent_team.Base.Fallible.{ok, err}
use sre_agent_team.Base.Int.{pos}
use sre_agent_team.Http.{http}
use sre_agent_team.Policy.Json.{end}
use sre_agent_team.Policy.Store.{CallerPolicy}
use sre_agent_team.Authorization.Claims.{SeveritySettings}
use sre_agent_team.Registry.Record.{InvestigationRecord, Registry, active}
use sre_agent_team.Registry.Admission.{Readings}
use sre_agent_team.Output.Selection.{Selection, best_structured_message}
use sre_agent_team.Output.Finalized.{Findings}
use sre_agent_team.Service.Interfaces.{PolicyOps, Config, CreateRequest, GetRequest, Caller}
use sre_agent_team.Service.Request.{Outside, answered}
use sre_agent_team.Service.Fetch.{Message, is_completed}
use sre_agent_team.Service.Poll.{Rounds}
use sre_agent_team.Service.Summary.{SummaryReply, public_findings}
use sre_agent_team.Service.Responses.{FindingsResponse}

abbrev pub policy : CallerPolicy
policy = record {
  appid = "app";
  display_name = "Shop";
  enabled = true;
  maximum_severity = "high";
  maximum_concurrent_investigations = 2;
  allowed_resource_groups = "group" ∷ [];
}

abbrev pub granting : PolicyOps Registry
granting = record {
  authorize = λ _ _ s. (ok policy, s);
  authorize_resource_group = λ _ _ s. (ok policy, s);
}

abbrev pub config : Config
config = record {
  max_description_size = 5000;
  max_context_size = 10000;
  max_workload_name_size = 256;
  max_idempotency_key_size = 128;
  max_status_wait_seconds = 20;
  status_poll_interval_seconds = 5;
  min_status_poll_interval_seconds = 5;
  target_liaison_agent = "liaison";
  finalization_token = "END";
  require_finalization_token = true;
  max_agent_messages = 50;
}

abbrev pub severities : SeveritySettings
severities = record { severity_claim = "max_severity"; require_severity_claim = false }

abbrev pub caller : Caller
caller = record { claims = end; oid = "owner"; appid = "app" }

abbrev pub request : CreateRequest
request = record {
  description = "slow";
  workload_name = "shop";
  resource_group_id = "group";
  severity = "high";
  context = "";
}

abbrev pub outside : Outside
outside = record {
  platform_token = ok "secret";
  post = λ _ _. answered "t-1";
  uuid = "c-1";
  digest = λ _. "f00d";
}

abbrev pub cut_off : Outside
cut_off = record outside { platform_token = err (http 500) }

abbrev pub readings : Readings
readings = record {
  cleanup_time = 100;
  now = 100;
  search_clock = λ _. 100;
  investigation_uuid = "i-1";
  correlation_uuid = "c-2";
}

abbrev pub alone : ℕ → Registry → Registry
alone _ s = s

abbrev pub rounds : Rounds
rounds = record {
  start = 100;
  tested = λ n. 100 + n * 5;
  asked = λ n. 100 + n * 5;
  fetched = λ _. ok is_completed;
}

abbrev pub poll : GetRequest
poll = record { investigation_id = "i-1"; wait_seconds = pos 10 }

-- The registry once a call has created the investigation.
abbrev pub record_of : InvestigationRecord
record_of = record {
  investigation_id = "i-1";
  caller_oid = "owner";
  caller_appid = "app";
  workload_name = "shop";
  workload_identity_appid = "app";
  platform_thread_id = "t-1";
  severity = "high";
  created_at = 100;
  expires_at = 86500;
  last_status_poll = 0;
  status_poll_count = 0;
  last_summary_poll = 0;
  summary_poll_count = 0;
  request_correlation_id = "c-1";
  idempotency_key = "k";
  request_fingerprint = "f00d";
  reservation_state = active;
  policy_display_name = "Shop";
  policy_enabled = true;
  policy_maximum_severity = "high";
  policy_maximum_concurrent_investigations = 2;
  activated_at = 101;
  completed_at = 0;
  findings_finalized_at = 0;
  findings_schema_version = "";
  findings_schema_valid = false;
  findings_selection_strategy = "";
  findings_redacted = false;
  reconciliation_lease_owner = "";
  reconciliation_lease_expires_at = 0;
}

abbrev pub created : Registry
created = record { records = ("i-1", record_of) ∷ []; workload_investigations = [] }

abbrev pub chosen : Selection
chosen = record { best_score = pos 600; text = "report"; strategy = best_structured_message }

abbrev pub findings : Findings
findings = record {
  summary = "the node 10.0.0.4 failed";
  impact = "platform issue";
  evidence = "log" ∷ [];
  likely_causes = [];
  recommended_actions = [];
  limitations = [];
}

abbrev pub agent_message : Message
agent_message = record { role = "SREAgent"; text = "report" }

abbrev pub summary_reply : SummaryReply
summary_reply = record {
  status = "completed";
  summary = (public_findings findings).summary;
  findings = some (public_findings findings);
}

abbrev pub told : FindingsResponse
told = record {
  investigation_id = "i-1";
  created_at = 100;
  completed_at = 500;
  expires_at = 86500;
  correlation_id = "c-1";
  findings = public_findings findings;
}
