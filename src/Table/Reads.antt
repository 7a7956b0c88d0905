-- ===== src/Table/Reads.antt =====
-- escalation-proxy/app/investigation_registry.py, `TableStorageInvestigationRegistry`: looking records up.
use sre_agent_team.Base.{
  ℕ, not, ◌&&◌, String, Option, none, some, List, [], ◌∷◌, ltb, leb, ◌==◌, if◌then◌else◌,
}
use sre_agent_team.Base.Fallible.{Result, ok, err}
use sre_agent_team.Registry.Record.{
  InvestigationRecord, Settings, investigation_not_found, unauthorized, expired, quota_reached,
}
use sre_agent_team.Registry.Reads.{quota_or_default}
use sre_agent_team.Table.Entity.{
  Entity, TableError, not_found, modified, raises, state_changed, is_value_error, text_at,
  from_entity,
}
use sre_agent_team.Table.Client.{
  Action, ◌>>=◌, lift, ensure, in_partition, with_key, TableClient, delete_entity_if_unchanged,
}
use sre_agent_team.Table.Counter.{idempotency_index_key, sum_active}

-- `fresh` is the value of `uuid4` for an entity that lacks a correlation id.
module _ {T : Type 0} (client : TableClient T) (fresh : String) where
  -- The removal of an expired record, and the error that says so.
  unfoldable pub drop_expired : Entity → Action T InvestigationRecord
  drop_expired entity t =
      let (dropped, t') = delete_entity_if_unchanged client entity t in
      elim dropped [
        | ok _ ↦ (err (raises expired), t')
        | err modified ↦ (err state_changed, t')
        | err e ↦ (err e, t')
      ]

  -- The checks on the entity that was found.
  unfoldable pub read_entity : String → ℕ → Entity → Action T InvestigationRecord
  read_entity workload_identity_appid now entity t = elim (from_entity fresh entity) [
    | err e ↦ (err e, t)
    | ok r ↦
        if not (r.workload_identity_appid == workload_identity_appid)
        then (err (raises unauthorized), t)
        else if ltb r.expires_at now
        then drop_expired entity t
        else (ok r, t)
  ]

  -- `get_investigation`; `caller_oid` is not read.
  unfoldable pub get_investigation : String → String → String → ℕ → Action T InvestigationRecord
  get_investigation investigation_id caller_oid workload_identity_appid now t =
      let (found, t') = client.get_entity workload_identity_appid investigation_id t in
      elim found [
        | ok entity ↦ read_entity workload_identity_appid now entity t'
        | err not_found ↦ (err (raises investigation_not_found), t')
        | err e ↦ (err e, t')
      ]

  -- The removal of an index entry whose record cannot be read.
  unfoldable pub drop_index :
      (String → String) → String → String → Action T (Option InvestigationRecord)
  drop_index digest caller_appid idempotency_key t =
      let (dropped, t') =
        client.delete_entity caller_appid (idempotency_index_key digest idempotency_key) t in
      elim dropped [ ok _ ↦ (ok none, t') | err not_found ↦ (ok none, t') | err e ↦ (err e, t') ]

  -- The `try` block; `clock` is the time at which the record under an id is tested.
  unfoldable pub read_index :
      (String → String) → String → String → (String → ℕ) → Action T InvestigationRecord
  read_index digest caller_appid idempotency_key clock = do
    index ← client.get_entity caller_appid (idempotency_index_key digest idempotency_key)
    investigation_id ← lift (text_at "investigation_id" index)
    get_investigation investigation_id "" caller_appid (clock investigation_id)

  unfoldable pub get_idempotency_record :
      (String → String) → String → String → (String → ℕ) → Action T (Option InvestigationRecord)
  get_idempotency_record digest caller_appid idempotency_key clock t =
      let (found, t') = read_index digest caller_appid idempotency_key clock t in
      elim found [
        | ok r ↦ (ok (some r), t')
        | err not_found ↦ (ok none, t')
        | err e ↦
            if is_value_error e
            then drop_index digest caller_appid idempotency_key t'
            else (err e, t')
      ]

  -- The loop over the entities that have the key.
  unfoldable pub first_live :
      String → (String → ℕ) → List Entity → Result TableError (Option InvestigationRecord)
  first_live caller_appid clock [] = ok none
  first_live caller_appid clock (e ∷ es) = elim (from_entity fresh e) [
    | err x ↦ err x
    | ok r ↦
        if r.caller_appid == caller_appid
          && r.workload_identity_appid == caller_appid
          && leb (clock r.investigation_id) r.expires_at
        then ok (some r)
        else first_live caller_appid clock es
  ]

  unfoldable pub find_by_idempotency_key :
      (String → String) → String → String → (String → ℕ) → Action T (Option InvestigationRecord)
  find_by_idempotency_key digest caller_appid idempotency_key clock t =
      let (indexed, t') = get_idempotency_record digest caller_appid idempotency_key clock t in
      elim indexed [
        | err e ↦ (err e, t')
        | ok (some r) ↦ (ok (some r), t')
        | ok none ↦
            (do
              entities ← client.query_entities (with_key caller_appid idempotency_key)
              lift (first_live caller_appid clock entities))
              t'
      ]

  unfoldable pub check_workload_quota : Settings → String → Option ℕ → ℕ → Action T (Unit {0})
  check_workload_quota settings workload_identity_appid maximum_investigations now =
      let quota =
        quota_or_default maximum_investigations settings.max_investigations_per_workload in
      do
        entities ← client.query_entities (in_partition workload_identity_appid)
        active_count ← lift (sum_active now entities)
        ensure (not (leb quota active_count)) (raises (quota_reached quota))
