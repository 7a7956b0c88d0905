-- ===== src/Registry/Record.antt =====
-- escalation-proxy/app/investigation_registry.py: the record of an investigation, the settings and
-- the state that the registry keeps. A time is a number of clock units; the settings that are
-- durations are in the same unit.
use sre_agent_team.Base.{ℕ, Bool, true, false, String, List, []}
use sre_agent_team.Base.Dict.{Dict}

-- The values that the code stores in `reservation_state`.
pub data ReservationState : Type 0 where
  reserved active completed failed : ReservationState

-- `reservation_state in {"reserved", "active"}`
abbrev pub holds_quota : ReservationState → Bool
holds_quota reserved = true
holds_quota active = true
holds_quota completed = false
holds_quota failed = false

abbrev pub is_reserved : ReservationState → Bool
is_reserved reserved = true
is_reserved active = false
is_reserved completed = false
is_reserved failed = false

abbrev pub is_active : ReservationState → Bool
is_active reserved = false
is_active active = true
is_active completed = false
is_active failed = false

pub record InvestigationRecord : Type 0 where
  pub investigation_id : String
  pub caller_oid : String
  pub caller_appid : String
  pub workload_name : String
  pub workload_identity_appid : String
  pub platform_thread_id : String
  pub severity : String
  pub created_at : ℕ
  pub expires_at : ℕ
  pub last_status_poll : ℕ
  pub status_poll_count : ℕ
  pub last_summary_poll : ℕ
  pub summary_poll_count : ℕ
  pub request_correlation_id : String
  pub idempotency_key : String
  pub request_fingerprint : String
  pub reservation_state : ReservationState
  pub policy_display_name : String
  pub policy_enabled : Bool
  pub policy_maximum_severity : String
  pub policy_maximum_concurrent_investigations : ℕ
  pub activated_at : ℕ
  pub completed_at : ℕ
  pub findings_finalized_at : ℕ
  pub findings_schema_version : String
  pub findings_schema_valid : Bool
  pub findings_selection_strategy : String
  pub findings_redacted : Bool
  pub reconciliation_lease_owner : String
  pub reconciliation_lease_expires_at : ℕ

-- The module's constants, which the environment may set.
pub record Settings : Type 0 where
  pub max_expiry_cleanup_batch_size : ℕ
  pub active_metadata_retention_seconds : ℕ
  pub final_findings_metadata_retention_seconds : ℕ
  pub max_investigations_per_workload : ℕ
  pub min_status_poll_interval_seconds : ℕ
  pub max_status_polls_per_investigation : ℕ
  pub min_summary_poll_interval_seconds : ℕ
  pub max_summary_polls_per_investigation : ℕ

-- The constants' values where the environment sets none, a unit being a second.
abbrev pub defaults : Settings
defaults = record {
  max_expiry_cleanup_batch_size = 100;
  active_metadata_retention_seconds = 86400;
  final_findings_metadata_retention_seconds = 604800;
  max_investigations_per_workload = 100;
  min_status_poll_interval_seconds = 5;
  max_status_polls_per_investigation = 288;
  min_summary_poll_interval_seconds = 5;
  max_summary_polls_per_investigation = 288;
}

pub record ReservationResult : Type 0 where
  pub investigation_id : String
  pub created : Bool

-- What the methods raise, one constructor for each message.
pub data RegistryError : Type 0 where
  idempotency_conflict : RegistryError
  quota_reached : ℕ → RegistryError
  reservation_not_found investigation_not_found unauthorized expired : RegistryError
  status_rate_limit maximum_status_polls : RegistryError
  summary_rate_limit maximum_summary_polls : RegistryError

-- The attributes of `InvestigationRegistry`. The lock is not a part of the state: a method that
-- takes it is one step.
pub record Registry : Type 0 where
  pub records : Dict InvestigationRecord
  pub workload_investigations : Dict (List String)

-- `InvestigationRegistry()`
abbrev pub empty : Registry
empty = record { records = []; workload_investigations = [] }
