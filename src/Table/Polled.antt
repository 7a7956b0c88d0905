-- ===== src/Table/Polled.antt =====
-- escalation-proxy/app/investigation_registry.py: `record_status_poll` and `record_summary_poll` of the two
-- registries.
use sre_agent_team.Base.{none, ℕ, ◌≡◌, refl, String, Option, some, leb, Bool-cases, inl, inr}
use sre_agent_team.Base.Dict.{lookup}
use sre_agent_team.Registry.Record.{InvestigationRecord, Registry, Settings}
use sre_agent_team.Registry.Lifecycle
use sre_agent_team.Registry.Lifecycle.{
  polled_too_soon, count_status_poll, count_summary_poll, admit_status_poll, admit_summary_poll,
}
use sre_agent_team.Table.Entity.{to_entity, Entity}
use sre_agent_team.Table.Client.{TableClient}
use sre_agent_team.Table.Lifecycle.{
  count_status, count_summary, status_poll_attempt, summary_poll_attempt, record_status_poll,
  record_summary_poll,
}
use sre_agent_team.Table.Laws.{IsAlone}
use sre_agent_team.Table.RoundTrip.{stored}
use sre_agent_team.Table.Represents.{IsId, Represents}
use sre_agent_team.Table.Agreement.{Agree}
use sre_agent_team.Table.Rounds.{tries-Agree}
use sre_agent_team.Table.Polling.{poll-Agree}
use sre_agent_team.Table.Updating.{update-Agree}

module _ {T : Type 0} (client : TableClient T) (rows : T → String → String → Option Entity)
    (alone : IsAlone client rows) (fresh : String) (settings : Settings) (id oid pk : String)
    (t : T) (s : Registry) (rep : Represents rows t s) (is_id : IsId id) where
  count_status-Agree :
      (now : ℕ) (r : InvestigationRecord) (tag : Option String)
      → lookup id s.records ≡ some r
      → r.workload_identity_appid ≡ pk
      → rows t pk id ≡ some (stored tag r)
      → Agree rows
          (count_status client fresh settings now r (stored tag r) t)
          (admit_status_poll settings id now r s)
  unfolding count_status admit_status_poll to_entity
  count_status-Agree now r tag found mine here =
      elim (Bool-cases
        (polled_too_soon r.last_status_poll now settings.min_status_poll_interval_seconds)) [
          | inl soon ↦ rw soon (refl, rep)
          | inr spaced ↦
              elim (Bool-cases
                (leb settings.max_status_polls_per_investigation r.status_poll_count)) [
                  | inl spent ↦ rw (spaced, spent) (refl, rep)
                  | inr left ↦
                      rw (spaced, left)
                        (update-Agree client rows alone id pk t s rep is_id (count_status_poll now)
                          r none tag found mine here refl refl refl)
                ]
        ]

  count_summary-Agree :
      (now : ℕ) (r : InvestigationRecord) (tag : Option String)
      → lookup id s.records ≡ some r
      → r.workload_identity_appid ≡ pk
      → rows t pk id ≡ some (stored tag r)
      → Agree rows
          (count_summary client fresh settings now r (stored tag r) t)
          (admit_summary_poll settings id now r s)
  unfolding count_summary admit_summary_poll to_entity
  count_summary-Agree now r tag found mine here =
      elim (Bool-cases
        (polled_too_soon r.last_summary_poll now settings.min_summary_poll_interval_seconds)) [
          | inl soon ↦ rw soon (refl, rep)
          | inr spaced ↦
              elim (Bool-cases
                (leb settings.max_summary_polls_per_investigation r.summary_poll_count)) [
                  | inl spent ↦ rw (spaced, spent) (refl, rep)
                  | inr left ↦
                      rw (spaced, left)
                        (update-Agree client rows alone id pk t s rep is_id (count_summary_poll now)
                          r none tag found mine here refl refl refl)
                ]
        ]

  pub status_poll_Agree :
      (check_clock clock : ℕ → ℕ)
      → Agree rows
          (record_status_poll client fresh settings id oid pk check_clock clock t)
          (Lifecycle.record_status_poll settings id oid pk (check_clock 0) (clock 0) s)
  unfolding record_status_poll status_poll_attempt Lifecycle.record_status_poll
  status_poll_Agree check_clock clock =
      tries-Agree rows 2 0
        (λ n. status_poll_attempt client fresh settings id pk (check_clock n) (clock n)) t
        (Lifecycle.record_status_poll settings id oid pk (check_clock 0) (clock 0) s)
        (poll-Agree client rows alone fresh settings id oid pk (check_clock 0) t s
          (count_status client fresh settings (clock 0)) (admit_status_poll settings id (clock 0))
          rep is_id (count_status-Agree (clock 0)))

  pub summary_poll_Agree :
      (check_clock clock : ℕ → ℕ)
      → Agree rows
          (record_summary_poll client fresh settings id oid pk check_clock clock t)
          (Lifecycle.record_summary_poll settings id oid pk (check_clock 0) (clock 0) s)
  unfolding record_summary_poll summary_poll_attempt Lifecycle.record_summary_poll
  summary_poll_Agree check_clock clock =
      tries-Agree rows 2 0
        (λ n. summary_poll_attempt client fresh settings id pk (check_clock n) (clock n)) t
        (Lifecycle.record_summary_poll settings id oid pk (check_clock 0) (clock 0) s)
        (poll-Agree client rows alone fresh settings id oid pk (check_clock 0) t s
          (count_summary client fresh settings (clock 0)) (admit_summary_poll settings id (clock 0))
          rep is_id (count_summary-Agree (clock 0)))
