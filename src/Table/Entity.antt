-- ===== src/Table/Entity.antt =====
-- escalation-proxy/app/investigation_registry.py: table entities, `_to_entity` and `_from_entity`. An
-- entity is its two keys, its other properties and the ETag that the service gave it.
use sre_agent_team.Base.{
  ℕ, Bool, true, false, not, String, Option, none, some, [], ◌∷◌, eqb, ◌==◌, if◌then◌else◌,
}
use sre_agent_team.Base.Fallible.{Result, ok, err, ◌>>=◌}
use sre_agent_team.Base.Dict.{Dict, lookup, insert}
use sre_agent_team.Registry.Record.{
  InvestigationRecord, RegistryError, ReservationState, reserved, active, completed, failed,
}

-- A property. Times and counts are numbers.
pub data Value : Type 0 where
  text : String → Value
  number : ℕ → Value
  flag : Bool → Value

pub record Entity : Type 0 where
  pub partition_key : String
  pub row_key : String
  pub properties : Dict Value
  pub etag : Option String

-- What a method raises: `ResourceNotFoundError`, `ResourceExistsError`, `ResourceModifiedError`,
-- `TableTransactionError` with its status code, any other exception of the client, a `KeyError` or a
-- property of a type that the code does not write, and the `ValueError`s: those of the in-memory
-- registry, and the ones that ask for a retry, miss an ETag, report a change or fail to recover.
pub data TableError : Type 0 where
  not_found exists modified : TableError
  transaction : ℕ → TableError
  service_error malformed : TableError
  raises : RegistryError → TableError
  please_retry missing_etag state_changed not_recovered : TableError

-- `isinstance(exc, ValueError)`
abbrev pub is_value_error : TableError → Bool
is_value_error (raises e) = true
is_value_error please_retry = true
is_value_error missing_etag = true
is_value_error state_changed = true
is_value_error not_recovered = true
is_value_error _ = false

-- `_is_concurrency_conflict`
unfoldable pub is_concurrency_conflict : TableError → Bool
is_concurrency_conflict modified = true
is_concurrency_conflict (transaction status_code) = eqb status_code 412
is_concurrency_conflict _ = false

-- `_entity_etag`
unfoldable pub entity_etag : Entity → Result TableError String
entity_etag e = elim e.etag [
  | none ↦ err missing_etag
  | some tag ↦ if tag == "" then err missing_etag else ok tag
]

abbrev pub state_text : ReservationState → String
state_text reserved = "reserved"
state_text active = "active"
state_text completed = "completed"
state_text failed = "failed"

-- The state that a text stands for; the code writes no other text.
unfoldable pub state_of_text : String → Result TableError ReservationState
state_of_text s =
    if s == "reserved"
    then ok reserved
    else if s == "active"
    then ok active
    else if s == "completed"
    then ok completed
    else if s == "failed"
    then ok failed
    else err malformed

abbrev pub as_text : Value → Result TableError String
as_text (text s) = ok s
as_text _ = err malformed

-- `float(v)` and `int(v)`
abbrev pub as_number : Value → Result TableError ℕ
as_number (number n) = ok n
as_number _ = err malformed

-- `bool(v)`
abbrev pub as_flag : Value → Bool
as_flag (flag b) = b
as_flag (number n) = not (eqb n 0)
as_flag (text s) = not (s == "")

-- `entity[key]`
unfoldable pub text_at : String → Entity → Result TableError String
text_at key e = elim (lookup key e.properties) [ none ↦ err malformed | some v ↦ as_text v ]

unfoldable pub number_at : String → Entity → Result TableError ℕ
number_at key e = elim (lookup key e.properties) [ none ↦ err malformed | some v ↦ as_number v ]

-- `entity.get(key, default)`
unfoldable pub text_or : String → String → Entity → Result TableError String
text_or key default e = elim (lookup key e.properties) [ none ↦ ok default | some v ↦ as_text v ]

unfoldable pub number_or : String → ℕ → Entity → Result TableError ℕ
number_or key default e = elim (lookup key e.properties) [
  | none ↦ ok default
  | some v ↦ as_number v
]

unfoldable pub flag_or : String → Bool → Entity → Bool
flag_or key default e = elim (lookup key e.properties) [ none ↦ default | some v ↦ as_flag v ]

-- `entity.get("reservation_state", "active")`
unfoldable pub state_at : Entity → Result TableError ReservationState
state_at e = text_or "reservation_state" "active" e >>= state_of_text

-- `updated[key] = value`
unfoldable pub set_property : String → Value → Entity → Entity
set_property key v e = record e { properties = insert key v e.properties }

-- `_to_entity`; what the code builds carries no ETag.
unfoldable pub to_entity : InvestigationRecord → Entity
to_entity r = record {
  partition_key = r.workload_identity_appid;
  row_key = r.investigation_id;
  properties =
      ("caller_oid", text r.caller_oid)
      ∷ ("caller_appid", text r.caller_appid)
      ∷ ("workload_name", text r.workload_name)
      ∷ ("workload_identity_appid", text r.workload_identity_appid)
      ∷ ("platform_thread_id", text r.platform_thread_id)
      ∷ ("severity", text r.severity)
      ∷ ("created_at", number r.created_at)
      ∷ ("expires_at", number r.expires_at)
      ∷ ("last_status_poll", number r.last_status_poll)
      ∷ ("status_poll_count", number r.status_poll_count)
      ∷ ("last_summary_poll", number r.last_summary_poll)
      ∷ ("summary_poll_count", number r.summary_poll_count)
      ∷ ("request_correlation_id", text r.request_correlation_id)
      ∷ ("idempotency_key", text r.idempotency_key)
      ∷ ("request_fingerprint", text r.request_fingerprint)
      ∷ ("reservation_state", text (state_text r.reservation_state))
      ∷ ("policy_display_name", text r.policy_display_name)
      ∷ ("policy_enabled", flag r.policy_enabled)
      ∷ ("policy_maximum_severity", text r.policy_maximum_severity)
      ∷ (
        "policy_maximum_concurrent_investigations",
        number r.policy_maximum_concurrent_investigations,
      )
      ∷ ("activated_at", number r.activated_at)
      ∷ ("completed_at", number r.completed_at)
      ∷ ("findings_finalized_at", number r.findings_finalized_at)
      ∷ ("findings_schema_version", text r.findings_schema_version)
      ∷ ("findings_schema_valid", flag r.findings_schema_valid)
      ∷ ("findings_selection_strategy", text r.findings_selection_strategy)
      ∷ ("findings_redacted", flag r.findings_redacted)
      ∷ ("reconciliation_lease_owner", text r.reconciliation_lease_owner)
      ∷ ("reconciliation_lease_expires_at", number r.reconciliation_lease_expires_at)
      ∷ [];
  etag = none;
}

-- `_from_entity`; `fresh` is the value of `uuid4`.
unfoldable pub from_entity : String → Entity → Result TableError InvestigationRecord
from_entity fresh e = do
  caller_oid ← text_at "caller_oid" e
  caller_appid ← text_at "caller_appid" e
  workload_name ← text_at "workload_name" e
  workload_identity_appid ← text_at "workload_identity_appid" e
  platform_thread_id ← text_at "platform_thread_id" e
  severity ← text_at "severity" e
  created_at ← number_at "created_at" e
  expires_at ← number_at "expires_at" e
  last_status_poll ← number_or "last_status_poll" 0 e
  status_poll_count ← number_or "status_poll_count" 0 e
  last_summary_poll ← number_or "last_summary_poll" 0 e
  summary_poll_count ← number_or "summary_poll_count" 0 e
  request_correlation_id ← text_or "request_correlation_id" fresh e
  idempotency_key ← text_or "idempotency_key" "" e
  request_fingerprint ← text_or "request_fingerprint" "" e
  reservation_state ← state_at e
  policy_display_name ← text_or "policy_display_name" "" e
  policy_maximum_severity ← text_or "policy_maximum_severity" "" e
  policy_maximum_concurrent_investigations ←
      number_or "policy_maximum_concurrent_investigations" 0 e
  activated_at ← number_or "activated_at" 0 e
  completed_at ← number_or "completed_at" 0 e
  findings_finalized_at ← number_or "findings_finalized_at" 0 e
  findings_schema_version ← text_or "findings_schema_version" "" e
  findings_selection_strategy ← text_or "findings_selection_strategy" "" e
  reconciliation_lease_owner ← text_or "reconciliation_lease_owner" "" e
  reconciliation_lease_expires_at ← number_or "reconciliation_lease_expires_at" 0 e
  ok (record {
    investigation_id = e.row_key;
    caller_oid = caller_oid;
    caller_appid = caller_appid;
    workload_name = workload_name;
    workload_identity_appid = workload_identity_appid;
    platform_thread_id = platform_thread_id;
    severity = severity;
    created_at = created_at;
    expires_at = expires_at;
    last_status_poll = last_status_poll;
    status_poll_count = status_poll_count;
    last_summary_poll = last_summary_poll;
    summary_poll_count = summary_poll_count;
    request_correlation_id = request_correlation_id;
    idempotency_key = idempotency_key;
    request_fingerprint = request_fingerprint;
    reservation_state = reservation_state;
    policy_display_name = policy_display_name;
    policy_enabled = flag_or "policy_enabled" true e;
    policy_maximum_severity = policy_maximum_severity;
    policy_maximum_concurrent_investigations = policy_maximum_concurrent_investigations;
    activated_at = activated_at;
    completed_at = completed_at;
    findings_finalized_at = findings_finalized_at;
    findings_schema_version = findings_schema_version;
    findings_schema_valid = flag_or "findings_schema_valid" false e;
    findings_selection_strategy = findings_selection_strategy;
    findings_redacted = flag_or "findings_redacted" false e;
    reconciliation_lease_owner = reconciliation_lease_owner;
    reconciliation_lease_expires_at = reconciliation_lease_expires_at;
  })
