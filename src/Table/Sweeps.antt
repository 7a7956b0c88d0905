-- ===== src/Table/Sweeps.antt =====
-- escalation-proxy/app/investigation_registry.py, `TableStorageInvestigationRegistry`: the methods that
-- background sweeps call, and the reservation, which begins with the removal of what has expired.
use sre_agent_team.Base.{
  ℕ, ◌+◌, ◌-◌, max, Bool, true, not, ◌&&◌, ◌||◌, String, Option, none, some, List, [], ◌∷◌, ltb,
  ◌==◌, if◌then◌else◌, take,
}
use sre_agent_team.Base.Fallible.{Result, ok, err}
use sre_agent_team.Base.Dict.{lookup}
use sre_agent_team.Registry.Record.{InvestigationRecord, Settings, ReservationResult, failed}
use sre_agent_team.Registry.Admission.{ReservationRequest, Readings}
use sre_agent_team.Registry.Sweeps.{lease}
use sre_agent_team.Table.Entity.{
  Entity, text, number, flag, TableError, not_found, modified, number_or, text_or, set_property,
  from_entity,
}
use sre_agent_team.Table.Client.{
  Action, ◌>>=◌, ◌>>◌, lift, give, in_state, reserved_before, expires_before, TableClient,
  again_on_conflict, tries, update_read, delete_entity_if_unchanged,
}
use sre_agent_team.Table.Counter.{
  quota_counter_key, idempotency_index_key, count_in, in_use, get_or_create_quota_counter,
  decrement_quota_counter,
}
use sre_agent_team.Table.Admission.{reserve_attempt, finalize_reservation}
use sre_agent_team.Table.Lifecycle.{terminal_entity, submit_completion}

-- The condition under which a claim passes a record over.
unfoldable pub skips_claim : ℕ → InvestigationRecord → Bool
skips_claim now r =
    r.platform_thread_id == "" || ltb r.expires_at now || ltb now r.reconciliation_lease_expires_at

abbrev pub leased_entity : String → ℕ → Entity → Entity
leased_entity lease_owner until e =
    set_property "reconciliation_lease_expires_at" (number until)
      (set_property "reconciliation_lease_owner" (text lease_owner) e)

abbrev pub add_if_some : {A : Type 0} → Option A → List A → List A
add_if_some none xs = xs
add_if_some (some x) xs = x ∷ xs

-- The entities that have expired and are no counter.
unfoldable pub expired_entities : ℕ → List Entity → Result TableError (List Entity)
expired_entities now [] = ok []
expired_entities now (e ∷ es) =
    let rest = expired_entities now es in
    if e.row_key == quota_counter_key then rest else (elim (number_or "expires_at" 0 e) [
      | err x ↦ err x
      | ok expires_at ↦
          if ltb expires_at now then (elim rest [ err x ↦ err x | ok xs ↦ ok (e ∷ xs) ]) else rest
    ])

-- `entity.get("caller_appid")`, where it is a text that is not empty.
abbrev pub caller_of : Entity → String
caller_of e = elim (lookup "caller_appid" e.properties) [
  | none ↦ ""
  | some (text s) ↦ s
  | some (number n) ↦ ""
  | some (flag b) ↦ ""
]

module _ {T : Type 0} (client : TableClient T) (fresh : String) where
  -- A round of a claim: the record, leased, or nothing where it is passed over.
  unfoldable pub claim_entity : String → ℕ → ℕ → Entity → Action T (Option InvestigationRecord)
  claim_entity lease_owner until now entity t = elim (from_entity fresh entity) [
    | err e ↦ (err e, t)
    | ok r ↦
        if skips_claim now r
        then (ok none, t)
        else again_on_conflict
            (update_read client (leased_entity lease_owner until entity) entity
              >> give (lease lease_owner until r))
            t
  ]

  unfoldable pub claim_each : String → ℕ → ℕ → List Entity → Action T (List InvestigationRecord)
  claim_each lease_owner until now [] = give []
  claim_each lease_owner until now (e ∷ es) = do
    claimed ← claim_entity lease_owner until now e
    rest ← claim_each lease_owner until now es
    give (add_if_some claimed rest)

  -- `len(claimed) >= limit` never holds within the first `limit` entities.
  unfoldable pub claim_reconcilable_investigations :
      ℕ → String → ℕ → ℕ → Action T (List InvestigationRecord)
  claim_reconcilable_investigations limit lease_owner lease_seconds now = do
    entities ← client.query_entities (in_state "active")
    claim_each lease_owner (now + lease_seconds) now (take limit entities)

module _ {T : Type 0} (client : TableClient T) (fresh : String) (settings : Settings) where
  abbrev pub failed_record : ℕ → ℕ → InvestigationRecord → InvestigationRecord
  failed_record now expires_at r = record r {
    reservation_state = failed;
    completed_at = now;
    expires_at = max expires_at (now + settings.final_findings_metadata_retention_seconds);
  }

  unfoldable pub fail_entity :
      ℕ → InvestigationRecord → Entity → Action T (Option InvestigationRecord)
  fail_entity now r entity = do
    counter ← get_or_create_quota_counter client r.caller_appid
    expires_at ← lift (number_or "expires_at" 0 entity)
    count ← lift (count_in counter)
    again_on_conflict (
        submit_completion client count counter
          (terminal_entity settings failed now expires_at entity) entity
        >> give (failed_record now expires_at r))

  unfoldable pub release_entity : ℕ → Entity → Action T (Option InvestigationRecord)
  release_entity now entity t = elim (from_entity fresh entity) [
    | err e ↦ (err e, t)
    | ok r ↦ if not (r.platform_thread_id == "") then (ok none, t) else fail_entity now r entity t
  ]

  unfoldable pub release_each : ℕ → List Entity → Action T (List InvestigationRecord)
  release_each now [] = give []
  release_each now (e ∷ es) = do
    released ← release_entity now e
    rest ← release_each now es
    give (add_if_some released rest)

  unfoldable pub release_stale_uncertain_reservations :
      ℕ → ℕ → ℕ → Action T (List InvestigationRecord)
  release_stale_uncertain_reservations limit grace_seconds now = do
    entities ← client.query_entities (reserved_before (now - grace_seconds))
    release_each now (take limit entities)

module _ {T : Type 0} (client : TableClient T) (digest : String → String) where
  -- The removal of the index entry of an entity that has a key.
  unfoldable pub delete_index : Entity → String → Action T (Unit {0})
  delete_index entity idempotency_key t =
      if idempotency_key == ""
      then (ok tt, t)
      else let (dropped, t') =
          client.delete_entity entity.partition_key (idempotency_index_key digest idempotency_key)
            t in
        elim dropped [ ok _ ↦ (ok tt, t') | err not_found ↦ (ok tt, t') | err e ↦ (err e, t') ]

  -- What follows the removal of an expired entity.
  unfoldable pub after_removal : Entity → Action T ℕ
  after_removal entity = do
    idempotency_key ← lift (text_or "idempotency_key" "" entity)
    delete_index entity idempotency_key
    if in_use true entity && not (caller_of entity == "")
        then decrement_quota_counter client (caller_of entity)
        else give tt
    give 1

  -- A round of the loop: 1, or 0 where the entity has changed or gone.
  unfoldable pub remove_expired : Entity → Action T ℕ
  remove_expired entity t =
      let (dropped, t') = delete_entity_if_unchanged client entity t in
      elim dropped [
        | ok _ ↦ after_removal entity t'
        | err not_found ↦ (ok 0, t')
        | err modified ↦ (ok 0, t')
        | err e ↦ (err e, t')
      ]

  unfoldable pub remove_each : List Entity → Action T ℕ
  remove_each [] = give 0
  remove_each (e ∷ es) = do n ← remove_expired e; m ← remove_each es; give (n + m)

  unfoldable pub cleanup_expired : ℕ → ℕ → Action T ℕ
  cleanup_expired limit now = do
    entities ← client.query_entities (expires_before now)
    expired ← lift (expired_entities now (take limit entities))
    remove_each expired

  unfoldable pub reserve_investigation :
      String → Settings → ReservationRequest → Readings → (ℕ → ℕ) → Action T ReservationResult
  reserve_investigation fresh settings q w clock = do
    _ ← cleanup_expired settings.max_expiry_cleanup_batch_size w.cleanup_time
    tries 3 0 (reserve_attempt client fresh digest settings q w clock)

  -- A reservation under the default quota, finalized at once.
  unfoldable pub create_investigation :
      String
      → Settings
      → ReservationRequest
      → String
      → Readings
      → (ℕ → ℕ)
      → (ℕ → ℕ)
      → Action T String
  create_investigation fresh settings q platform_thread_id w clock activation_clock =
      let quota_request = record q {
        maximum_investigations = settings.max_investigations_per_workload;
        policy_display_name = "";
        policy_enabled = true;
        policy_maximum_severity = "";
      } in
      do
        reservation ← reserve_investigation fresh settings quota_request w clock
        finalize_reservation client fresh reservation.investigation_id q.caller_appid
            platform_thread_id activation_clock
        give reservation.investigation_id
