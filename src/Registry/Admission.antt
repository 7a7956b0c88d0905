-- ===== src/Registry/Admission.antt =====
-- escalation-proxy/app/investigation_registry.py: reserving a quota slot, attaching the platform
-- thread to it, and giving it back.
use sre_agent_team.Base.{
  ℕ, ◌+◌, Bool, true, false, not, ◌&&◌, String, Option, none, some, List, [], ◌∷◌, ◌++◌, leb, ◌==◌,
  if◌then◌else◌,
}
use sre_agent_team.Base.Fallible.{Result, ok, err}
use sre_agent_team.Base.Dict.{Dict, lookup, insert, erase, update}
use sre_agent_team.Registry.Record.{
  InvestigationRecord, Registry, RegistryError, ReservationResult, Settings, reserved, active,
  is_reserved, idempotency_conflict, quota_reached, reservation_not_found,
}
use sre_agent_team.Registry.Reads.{find_by_idempotency_key, active_count, cleanup_expired}

-- The parameters of `reserve_investigation`.
pub record ReservationRequest : Type 0 where
  pub caller_oid : String
  pub caller_appid : String
  pub workload_name : String
  pub workload_identity_appid : String
  pub severity : String
  pub maximum_investigations : ℕ
  pub idempotency_key : String
  pub request_fingerprint : String
  pub request_correlation_id : String
  pub policy_display_name : String
  pub policy_enabled : Bool
  pub policy_maximum_severity : String

-- What a call of `reserve_investigation` reads from outside: the clock in `cleanup_expired`, the
-- clock at `now`, the clock in the search for the key, and two values of `uuid4`.
pub record Readings : Type 0 where
  pub cleanup_time : ℕ
  pub now : ℕ
  pub search_clock : String → ℕ
  pub investigation_uuid : String
  pub correlation_uuid : String

-- The record that a reservation puts into the registry.
unfoldable pub new_record : Settings → ReservationRequest → Readings → InvestigationRecord
new_record settings q w = record {
  investigation_id = w.investigation_uuid;
  caller_oid = q.caller_oid;
  caller_appid = q.caller_appid;
  workload_name = q.workload_name;
  workload_identity_appid = q.workload_identity_appid;
  platform_thread_id = "";
  severity = q.severity;
  created_at = w.now;
  expires_at = w.now + settings.active_metadata_retention_seconds;
  last_status_poll = 0;
  status_poll_count = 0;
  last_summary_poll = 0;
  summary_poll_count = 0;
  request_correlation_id =
      if q.request_correlation_id == "" then w.correlation_uuid else q.request_correlation_id;
  idempotency_key = q.idempotency_key;
  request_fingerprint = q.request_fingerprint;
  reservation_state = reserved;
  policy_display_name = q.policy_display_name;
  policy_enabled = q.policy_enabled;
  policy_maximum_severity = q.policy_maximum_severity;
  policy_maximum_concurrent_investigations = q.maximum_investigations;
  activated_at = 0;
  completed_at = 0;
  findings_finalized_at = 0;
  findings_schema_version = "";
  findings_schema_valid = false;
  findings_selection_strategy = "";
  findings_redacted = false;
  reconciliation_lease_owner = "";
  reconciliation_lease_expires_at = 0;
}

-- `self._workload_investigations.setdefault(workload_name, []).append(investigation_id)`
unfoldable pub index_workload : String → String → Dict (List String) → Dict (List String)
index_workload workload_name investigation_id d = elim (lookup workload_name d) [
  | none ↦ insert workload_name (investigation_id ∷ []) d
  | some ids ↦ insert workload_name (ids ++ (investigation_id ∷ [])) d
]

-- `if idempotency_key: existing = self.find_by_idempotency_key(caller_appid, idempotency_key)`
unfoldable pub existing_reservation :
    ReservationRequest → Readings → Registry → Option InvestigationRecord
existing_reservation q w s =
    if q.idempotency_key == ""
    then none
    else find_by_idempotency_key q.caller_appid q.idempotency_key w.search_clock s

-- The rest of `reserve_investigation`, where no record answers the key.
unfoldable pub admit :
    Settings
    → ReservationRequest
    → Readings
    → Registry
    → Result RegistryError ReservationResult × Registry
admit settings q w s =
    if leb q.maximum_investigations (active_count q.workload_identity_appid (λ _. w.now) s.records)
    then (err (quota_reached q.maximum_investigations), s)
    else (
      ok (record { investigation_id = w.investigation_uuid; created = true }),
      record {
        records = insert w.investigation_uuid (new_record settings q w) s.records;
        workload_investigations =
            index_workload q.workload_name w.investigation_uuid s.workload_investigations;
      },
    )

-- `reserve_investigation` after its cleanup.
unfoldable pub reserve_clean :
    Settings
    → ReservationRequest
    → Readings
    → Registry
    → Result RegistryError ReservationResult × Registry
reserve_clean settings q w s = elim (existing_reservation q w s) [
  | none ↦ admit settings q w s
  | some r ↦
      if not (r.request_fingerprint == q.request_fingerprint)
      then (err idempotency_conflict, s)
      else (ok (record { investigation_id = r.investigation_id; created = false }), s)
]

unfoldable pub reserve_investigation :
    Settings
    → ReservationRequest
    → Readings
    → Registry
    → Result RegistryError ReservationResult × Registry
reserve_investigation settings q w s =
    reserve_clean settings q w
      (cleanup_expired settings.max_expiry_cleanup_batch_size w.cleanup_time s).1

abbrev pub attach_thread : String → ℕ → InvestigationRecord → InvestigationRecord
attach_thread platform_thread_id now r = record r {
  platform_thread_id = platform_thread_id;
  reservation_state = active;
  activated_at = now;
}

unfoldable pub finalize_reservation :
    String → String → String → ℕ → Registry → Result RegistryError (Unit {0}) × Registry
finalize_reservation investigation_id caller_appid platform_thread_id now s =
    elim (lookup investigation_id s.records) [
      | none ↦ (err reservation_not_found, s)
      | some r ↦ if not (r.caller_appid == caller_appid) then (err reservation_not_found, s) else (
        ok tt,
        record s {
          records = update investigation_id (attach_thread platform_thread_id now) s.records;
        },
      )
    ]

unfoldable pub release_reservation : String → String → Registry → Registry
release_reservation investigation_id caller_appid s = elim (lookup investigation_id s.records) [
  | none ↦ s
  | some r ↦
      if r.caller_appid == caller_appid && is_reserved r.reservation_state
      then record s { records = erase investigation_id s.records }
      else s
]

-- `create_investigation`: a reservation under the default quota, finalized at once.
unfoldable pub create_investigation :
    Settings
    → ReservationRequest
    → String
    → Readings
    → ℕ
    → Registry
    → Result RegistryError String × Registry
create_investigation settings q platform_thread_id w activation_time s =
    let quota_request = record q {
      maximum_investigations = settings.max_investigations_per_workload;
      policy_display_name = "";
      policy_enabled = true;
      policy_maximum_severity = "";
    } in
    let (reservation, s') = reserve_investigation settings quota_request w s in
    elim reservation [
      | err e ↦ (err e, s')
      | ok made ↦
          let (finalized, s'') =
            finalize_reservation made.investigation_id q.caller_appid platform_thread_id
              activation_time s' in
          elim finalized [ err e ↦ (err e, s'') | ok _ ↦ (ok made.investigation_id, s'') ]
    ]
