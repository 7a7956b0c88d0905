-- ===== src/Table/Lifecycle.antt =====
-- escalation-proxy/app/investigation_registry.py, `TableStorageInvestigationRegistry`: the end of an
-- investigation, the metadata of its findings, and the polls.
use sre_agent_team.Base.{
  ℕ, ◌+◌, ◌-◌, max, Bool, false, not, String, Option, some, List, [], ◌∷◌, eqb, ltb, leb,
  if◌then◌else◌, ◌==◌,
}
use sre_agent_team.Base.Fallible.{ok, err}
use sre_agent_team.Registry.Record.{
  InvestigationRecord, Settings, ReservationState, investigation_not_found, unauthorized, expired,
  status_rate_limit, maximum_status_polls, summary_rate_limit, maximum_summary_polls,
}
use sre_agent_team.Registry.Lifecycle.{polled_too_soon, count_status_poll, count_summary_poll}
use sre_agent_team.Table.Entity.{
  Entity, text, number, flag, raises, entity_etag, state_text, number_or, set_property, to_entity,
  from_entity,
}
use sre_agent_team.Table.Client.{
  Action, ◌>>=◌, ◌>>◌, lift, give, ensure, Operation, replace, TableClient, again_on_conflict,
  tries, update_read, delete_entity_if_unchanged,
}
use sre_agent_team.Table.Counter.{count_in, with_count, in_use, get_or_create_quota_counter}
use sre_agent_team.Table.Admission.{has_text}

-- The entity in its terminal state; `expires_at` is the one it had.
unfoldable pub terminal_entity : Settings → ReservationState → ℕ → ℕ → Entity → Entity
terminal_entity settings terminal_state completed_at expires_at e =
    set_property "expires_at"
      (number (max expires_at (completed_at + settings.final_findings_metadata_retention_seconds)))
      (set_property "completed_at" (number completed_at)
        (set_property "reservation_state" (text (state_text terminal_state)) e))

-- The transaction that ends an investigation: the counter one down and the entity, each under the ETag
-- that was read.
unfoldable pub complete_operations : ℕ → Entity → String → Entity → String → List Operation
complete_operations count counter counter_tag updated tag =
    replace (with_count (count - 1) counter) counter_tag ∷ replace updated tag ∷ []

-- `if float(entity.get("findings_finalized_at", 0.0)) == 0.0: …`
unfoldable pub stamp_entity : Settings → ℕ → ℕ → ℕ → Entity → Entity
stamp_entity settings now finalized_at expires_at e =
    if eqb finalized_at 0
    then set_property "expires_at"
        (number (max expires_at (now + settings.final_findings_metadata_retention_seconds)))
        (set_property "findings_finalized_at" (number now) e)
    else e

unfoldable pub findings_entity : Bool → String → Bool → Entity → Entity
findings_entity schema_valid selection_strategy redaction_applied e =
    set_property "findings_redacted" (flag redaction_applied) (
      set_property "findings_selection_strategy" (text selection_strategy) (
        set_property "findings_schema_valid" (flag schema_valid)
          (set_property "findings_schema_version" (text (if schema_valid then "1.0" else "")) e)))

module _ {T : Type 0} (client : TableClient T) where
  -- The `try` block of `complete_investigation`.
  unfoldable pub submit_completion : ℕ → Entity → Entity → Entity → Action T (Unit {0})
  submit_completion count counter updated entity = do
    counter_tag ← lift (entity_etag counter)
    tag ← lift (entity_etag entity)
    client.submit_transaction (complete_operations count counter counter_tag updated tag)

module _ {T : Type 0} (client : TableClient T) (settings : Settings) where
  -- A round on an entity that holds a slot.
  unfoldable pub complete_entity :
      String → ReservationState → ℕ → Entity → Action T (Option (Unit {0}))
  complete_entity caller_appid terminal_state completed_at entity = do
    counter ← get_or_create_quota_counter client caller_appid
    expires_at ← lift (number_or "expires_at" 0 entity)
    count ← lift (count_in counter)
    again_on_conflict (
        submit_completion client count counter
          (terminal_entity settings terminal_state completed_at expires_at entity) entity)

  unfoldable pub complete_attempt :
      String → String → ReservationState → ℕ → Action T (Option (Unit {0}))
  complete_attempt investigation_id caller_appid terminal_state completed_at = do
    entity ← client.get_entity caller_appid investigation_id
    ensure (has_text "caller_appid" caller_appid entity) (raises investigation_not_found)
    if not (in_use false entity)
        then give (some tt)
        else complete_entity caller_appid terminal_state completed_at entity

  unfoldable pub complete_investigation :
      String → String → ReservationState → (ℕ → ℕ) → Action T (Unit {0})
  complete_investigation investigation_id caller_appid terminal_state clock =
      tries 3 0 (λ n. complete_attempt investigation_id caller_appid terminal_state (clock n))

  unfoldable pub findings_attempt :
      String → String → Bool → String → Bool → ℕ → Action T (Option (Unit {0}))
  findings_attempt investigation_id caller_appid schema_valid selection_strategy redaction_applied
        now =
      do
        entity ← client.get_entity caller_appid investigation_id
        ensure (has_text "caller_appid" caller_appid entity) (raises investigation_not_found)
        finalized_at ← lift (number_or "findings_finalized_at" 0 entity)
        expires_at ← lift (number_or "expires_at" 0 entity)
        again_on_conflict (
            update_read client
              (findings_entity schema_valid selection_strategy redaction_applied
                (stamp_entity settings now finalized_at expires_at entity))
              entity)

  unfoldable pub record_findings_metadata :
      String → String → Bool → String → Bool → (ℕ → ℕ) → Action T (Unit {0})
  record_findings_metadata investigation_id caller_appid schema_valid selection_strategy
        redaction_applied clock =
      tries 3 0 (λ n.
        findings_attempt investigation_id caller_appid schema_valid selection_strategy
          redaction_applied (clock n))

-- `check_time` is the reading of the expiry check, `now` the one after it.
module _ {T : Type 0} (client : TableClient T) (fresh : String) (settings : Settings) where
  -- The checks that the polls share: the record, and that it is the caller's and has not expired.
  unfoldable pub pollable : String → ℕ → Entity → Action T InvestigationRecord
  pollable workload_identity_appid check_time entity t = elim (from_entity fresh entity) [
    | err e ↦ (err e, t)
    | ok r ↦
        if not (r.workload_identity_appid == workload_identity_appid)
        then (err (raises unauthorized), t)
        else if ltb r.expires_at check_time
        then (delete_entity_if_unchanged client entity >> lift (err (raises expired))) t
        else (ok r, t)
  ]

  unfoldable pub count_status : ℕ → InvestigationRecord → Entity → Action T (Unit {0})
  count_status now r entity =
      if polled_too_soon r.last_status_poll now settings.min_status_poll_interval_seconds
      then lift (err (raises status_rate_limit))
      else if leb settings.max_status_polls_per_investigation r.status_poll_count
      then lift (err (raises maximum_status_polls))
      else update_read client (to_entity (count_status_poll now r)) entity

  unfoldable pub count_summary : ℕ → InvestigationRecord → Entity → Action T (Unit {0})
  count_summary now r entity =
      if polled_too_soon r.last_summary_poll now settings.min_summary_poll_interval_seconds
      then lift (err (raises summary_rate_limit))
      else if leb settings.max_summary_polls_per_investigation r.summary_poll_count
      then lift (err (raises maximum_summary_polls))
      else update_read client (to_entity (count_summary_poll now r)) entity

  unfoldable pub status_poll_attempt : String → String → ℕ → ℕ → Action T (Unit {0})
  status_poll_attempt investigation_id workload_identity_appid check_time now = do
    entity ← client.get_entity workload_identity_appid investigation_id
    r ← pollable workload_identity_appid check_time entity
    count_status now r entity

  unfoldable pub summary_poll_attempt : String → String → ℕ → ℕ → Action T (Unit {0})
  summary_poll_attempt investigation_id workload_identity_appid check_time now = do
    entity ← client.get_entity workload_identity_appid investigation_id
    r ← pollable workload_identity_appid check_time entity
    count_summary now r entity

  -- `caller_oid` is not read.
  unfoldable pub record_status_poll :
      String → String → String → (ℕ → ℕ) → (ℕ → ℕ) → Action T (Unit {0})
  record_status_poll investigation_id caller_oid workload_identity_appid check_clock clock =
      tries 3 0 (λ n.
        again_on_conflict
          (status_poll_attempt investigation_id workload_identity_appid (check_clock n) (clock n)))

  unfoldable pub record_summary_poll :
      String → String → String → (ℕ → ℕ) → (ℕ → ℕ) → Action T (Unit {0})
  record_summary_poll investigation_id caller_oid workload_identity_appid check_clock clock =
      tries 3 0 (λ n.
        again_on_conflict
          (summary_poll_attempt investigation_id workload_identity_appid (check_clock n) (clock n)))
