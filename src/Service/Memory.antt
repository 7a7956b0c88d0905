-- ===== src/Service/Memory.antt =====
-- escalation-proxy/app/investigation_registry.py: the in-memory registry as the service's registry.
-- `w` is what the call's reservation reads, `now` the clock at each other method.
use sre_agent_team.Base.{ℕ}
use sre_agent_team.Base.Fallible.{Result, ok, err}
use sre_agent_team.Registry.Record.{Registry, RegistryError, Settings}
use sre_agent_team.Registry.Reads.{get_investigation, find_by_idempotency_key}
use sre_agent_team.Registry.Lifecycle.{
  complete_investigation, record_findings_metadata, record_status_poll, record_summary_poll,
}
use sre_agent_team.Registry.Admission.{
  Readings, reserve_investigation, finalize_reservation, release_reservation,
}
use sre_agent_team.Service.Interfaces.{RegistryOps, Raised, value_error}

-- What the in-memory registry raises is a `ValueError`.
abbrev pub values : {A W : Type 0} → Result RegistryError A × W → Result Raised A × W
values x = (elim x.0 [ ok a ↦ ok a | err e ↦ err (value_error e) ], x.1)

abbrev pub memory_registry : Settings → Readings → ℕ → RegistryOps Registry
memory_registry settings w now = record {
  find_by_idempotency_key =
      λ appid key s. (ok (find_by_idempotency_key appid key w.search_clock s), s);
  reserve_investigation = λ q s. values (reserve_investigation settings q w s);
  finalize_reservation = λ id appid thread s. values (finalize_reservation id appid thread now s);
  release_reservation = λ id appid s. (ok tt, release_reservation id appid s);
  get_investigation = λ id oid appid s. values (get_investigation id oid appid now s);
  record_status_poll =
      λ id oid appid s. values (record_status_poll settings id oid appid now now s);
  record_summary_poll =
      λ id oid appid s. values (record_summary_poll settings id oid appid now now s);
  complete_investigation =
      λ id appid status s. values (complete_investigation settings id appid status now s);
  record_findings_metadata = λ id appid valid strategy redacted s.
      values (record_findings_metadata settings id appid valid strategy redacted now s);
}
