-- ===== src/Registry/Lifecycle.antt =====
-- escalation-proxy/app/investigation_registry.py: completing an investigation, recording its
-- findings, and recording polls under their rate limits.
use sre_agent_team.Base.{
  ℕ, ◌+◌, max, Bool, not, ◌&&◌, String, none, some, ltb, leb, eqb, ◌==◌, if◌then◌else◌,
}
use sre_agent_team.Base.Fallible.{Result, ok, err}
use sre_agent_team.Base.Dict.{lookup, update}
use sre_agent_team.Registry.Record.{
  ReservationState, InvestigationRecord, Registry, RegistryError, Settings, holds_quota,
  investigation_not_found, status_rate_limit, maximum_status_polls, summary_rate_limit,
  maximum_summary_polls,
}
use sre_agent_team.Registry.Reads.{get_investigation}

-- The assignments of `complete_investigation`.
unfoldable pub set_terminal :
    Settings → ReservationState → ℕ → InvestigationRecord → InvestigationRecord
set_terminal settings terminal_state completed_at r =
    if holds_quota r.reservation_state
    then record r {
      reservation_state = terminal_state;
      completed_at = completed_at;
      expires_at =
          max r.expires_at (completed_at + settings.final_findings_metadata_retention_seconds);
    }
    else r

unfoldable pub complete_investigation :
    Settings
    → String
    → String
    → ReservationState
    → ℕ
    → Registry
    → Result RegistryError (Unit {0}) × Registry
complete_investigation settings investigation_id caller_appid terminal_state completed_at s =
    elim (lookup investigation_id s.records) [
      | none ↦ (err investigation_not_found, s)
      | some r ↦
          if not (r.caller_appid == caller_appid) then (err investigation_not_found, s) else (
            ok tt,
            record s {
              records =
                  update investigation_id (set_terminal settings terminal_state completed_at)
                    s.records;
            },
          )
    ]

-- `if record.findings_finalized_at == 0.0: …`
unfoldable pub stamp_findings : Settings → ℕ → InvestigationRecord → InvestigationRecord
stamp_findings settings now r =
    if eqb r.findings_finalized_at 0
    then record r {
      findings_finalized_at = now;
      expires_at = max r.expires_at (now + settings.final_findings_metadata_retention_seconds);
    }
    else r

-- The assignments of `record_findings_metadata`.
unfoldable pub set_findings :
    Settings → Bool → String → Bool → ℕ → InvestigationRecord → InvestigationRecord
set_findings settings schema_valid selection_strategy redaction_applied now r =
    record (stamp_findings settings now r) {
      findings_schema_version = if schema_valid then "1.0" else "";
      findings_schema_valid = schema_valid;
      findings_selection_strategy = selection_strategy;
      findings_redacted = redaction_applied;
    }

unfoldable pub record_findings_metadata :
    Settings
    → String
    → String
    → Bool
    → String
    → Bool
    → ℕ
    → Registry
    → Result RegistryError (Unit {0}) × Registry
record_findings_metadata settings investigation_id caller_appid schema_valid selection_strategy
      redaction_applied now s =
    elim (lookup investigation_id s.records) [
      | none ↦ (err investigation_not_found, s)
      | some r ↦
          if not (r.caller_appid == caller_appid) then (err investigation_not_found, s) else (
            ok tt,
            record s {
              records =
                  update investigation_id
                    (set_findings settings schema_valid selection_strategy redaction_applied now)
                    s.records;
            },
          )
    ]

-- `last > 0 and now - last < interval`, on clock readings that may also run backwards.
unfoldable pub polled_too_soon : ℕ → ℕ → ℕ → Bool
polled_too_soon last now interval = ltb 0 last && ltb now (last + interval)

abbrev pub count_status_poll : ℕ → InvestigationRecord → InvestigationRecord
count_status_poll now r = record r {
  last_status_poll = now;
  status_poll_count = r.status_poll_count + 1;
}

-- The part of `record_status_poll` after the record is found, at its second clock reading.
unfoldable pub admit_status_poll :
    Settings
    → String
    → ℕ
    → InvestigationRecord
    → Registry
    → Result RegistryError (Unit {0}) × Registry
admit_status_poll settings investigation_id now r s =
    if polled_too_soon r.last_status_poll now settings.min_status_poll_interval_seconds
    then (err status_rate_limit, s)
    else if leb settings.max_status_polls_per_investigation r.status_poll_count
    then (err maximum_status_polls, s)
    else (ok tt, record s { records = update investigation_id (count_status_poll now) s.records })

-- `check_time` is the reading of the expiry check, `now` the one after it.
unfoldable pub record_status_poll :
    Settings
    → String
    → String
    → String
    → ℕ
    → ℕ
    → Registry
    → Result RegistryError (Unit {0}) × Registry
record_status_poll settings investigation_id caller_oid workload_identity_appid check_time now s =
    let (found, s') =
      get_investigation investigation_id caller_oid workload_identity_appid check_time s in
    elim found [ err e ↦ (err e, s') | ok r ↦ admit_status_poll settings investigation_id now r s' ]

abbrev pub count_summary_poll : ℕ → InvestigationRecord → InvestigationRecord
count_summary_poll now r = record r {
  last_summary_poll = now;
  summary_poll_count = r.summary_poll_count + 1;
}

-- The part of `record_summary_poll` after the record is found.
unfoldable pub admit_summary_poll :
    Settings
    → String
    → ℕ
    → InvestigationRecord
    → Registry
    → Result RegistryError (Unit {0}) × Registry
admit_summary_poll settings investigation_id now r s =
    if polled_too_soon r.last_summary_poll now settings.min_summary_poll_interval_seconds
    then (err summary_rate_limit, s)
    else if leb settings.max_summary_polls_per_investigation r.summary_poll_count
    then (err maximum_summary_polls, s)
    else (ok tt, record s { records = update investigation_id (count_summary_poll now) s.records })

unfoldable pub record_summary_poll :
    Settings
    → String
    → String
    → String
    → ℕ
    → ℕ
    → Registry
    → Result RegistryError (Unit {0}) × Registry
record_summary_poll settings investigation_id caller_oid workload_identity_appid check_time now s =
    let (found, s') =
      get_investigation investigation_id caller_oid workload_identity_appid check_time s in
    elim found [
      | err e ↦ (err e, s')
      | ok r ↦ admit_summary_poll settings investigation_id now r s'
    ]
