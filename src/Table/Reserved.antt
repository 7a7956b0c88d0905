-- ===== src/Table/Reserved.antt =====
-- escalation-proxy/app/investigation_registry.py: what a reservation with an idempotency key does to the table.
use sre_agent_team.Base.{
  ℕ, ◌+◌, ◌≡◌, refl, true, false, String, Option, some, none, List, leb, ◌==◌, arith, ==_refl, All,
}
use sre_agent_team.Base.Fallible.{ok}
use sre_agent_team.Registry.Record.{Settings}
use sre_agent_team.Registry.Admission.{ReservationRequest, Readings, new_record}
use sre_agent_team.Table.Entity.{Entity, to_entity, entity_etag, set_property}
use sre_agent_team.Table.Client.{TableClient, Operation, tries}
use sre_agent_team.Table.Counter.{quota_counter_key, idempotency_index_key, count_in, with_count}
use sre_agent_team.Table.Admission.{
  index_entity, reserve_operations, place, reserve_slot, reserve_round, reserve_attempt, made,
}
use sre_agent_team.Table.Laws.{body, bodies, Holds, is_batch, IsAlone}
use sre_agent_team.Table.Represents.{IsId}
use sre_agent_team.Table.Effects.{not_counter, counter_lem}
use sre_agent_team.Table.Rounds.{tries-ok}
use sre_agent_team.Table.Keys.{not_index, index-not_counter}

module _ {T : Type 0} (client : TableClient T) (rows : T → String → String → Option Entity)
    (alone : IsAlone client rows) (fresh : String) (digest : String → String) (settings : Settings)
    (q : ReservationRequest) (w : Readings) (clock : ℕ → ℕ) (t : T) (c : Entity) (n : ℕ)
    (is_id : IsId w.investigation_uuid) (same : q.caller_appid ≡ q.workload_identity_appid)
    (keyed : (q.idempotency_key == "") ≡ false)
    (counter : rows t q.workload_identity_appid quota_counter_key ≡ some c)
    (counts : count_in c ≡ ok n)
    (no_row : rows t q.workload_identity_appid w.investigation_uuid ≡ none)
    (no_index : rows t q.workload_identity_appid (idempotency_index_key digest q.idempotency_key)
      ≡ none) where
  -- The transaction that is submitted, under the counter's ETag.
  abbrev operations : String → List Operation
  operations tag = reserve_operations digest q (new_record settings q w) n c tag

  operations_batch : (tag : String) → is_batch (operations tag) ≡ true
  unfolding reserve_operations to_entity new_record set_property
  operations_batch tag = ground (
    arith,
    alone.keyed q.workload_identity_appid quota_counter_key t c counter,
    not_counter w.investigation_uuid is_id,
    not_index digest q.idempotency_key w.investigation_uuid is_id,
    index-not_counter digest q.idempotency_key,
    ==_refl q.workload_identity_appid,
  )

  operations_hold : (tag : String) → entity_etag c ≡ ok tag → All (Holds rows t) (operations tag)
  unfolding reserve_operations to_entity new_record set_property
  operations_hold tag tagged =
      let (counter_pk, counter_at) =
        alone.keyed q.workload_identity_appid quota_counter_key t c counter in
      rw keyed ((c, ground arith, tagged), (no_row, (ground arith, tt)))

  abbrev Stored : T → Type 0
  Stored t' =
      (bodies rows t' q.workload_identity_appid w.investigation_uuid
        ≡ some (to_entity (new_record settings q w)))
      × (bodies rows t' q.workload_identity_appid (idempotency_index_key digest q.idempotency_key)
          ≡ some (body (index_entity digest q (new_record settings q w))))
      × (bodies rows t' q.workload_identity_appid quota_counter_key
          ≡ some (body (with_count (n + 1) c)))

  placed :
      let (x, t') = place client fresh digest settings q w clock n c t in (x ≡ ok tt) × Stored t'
  unfolding place reserve_operations to_entity new_record set_property
  placed =
      let (tag, tagged) = alone.tagged q.workload_identity_appid quota_counter_key t c counter in
      let (counter_pk, counter_at) =
        alone.keyed q.workload_identity_appid quota_counter_key t c counter in
      let (answered, wrote) =
        alone.submits (operations tag) t (operations_batch tag) (operations_hold tag tagged) in
      let index = idempotency_index_key digest q.idempotency_key in
      let pk = q.workload_identity_appid in
      rw (tagged, place)
        (
          answered,
          (
            ground (
              arith,
              wrote pk w.investigation_uuid,
              ==_refl pk,
              ==_refl w.investigation_uuid,
              not_counter w.investigation_uuid is_id,
            ),
            ground (
              arith,
              wrote pk index,
              ==_refl pk,
              ==_refl index,
              not_index digest q.idempotency_key w.investigation_uuid is_id,
              index-not_counter digest q.idempotency_key,
            ),
            ground (arith, wrote pk quota_counter_key, ==_refl pk, ==_refl quota_counter_key),
          ),
        )

  reserve_first :
      leb q.maximum_investigations n ≡ false
      → let m = place client fresh digest settings q w clock n c in
        reserve_attempt client fresh digest settings q w clock 0 t
        ≡ (ok (some (made client fresh digest settings q w clock)), (m t).1)
  unfolding reserve_attempt reserve_round reserve_slot
  reserve_first below =
      ground (arith, counter_lem client rows alone q.workload_identity_appid t c counter, placed.0)

  pub reservation_stores :
      leb q.maximum_investigations n ≡ false
      → let (x, t') = tries 3 0 (reserve_attempt client fresh digest settings q w clock) t in
        (x ≡ ok (record { investigation_id = w.investigation_uuid; created = true })) × Stored t'
  reservation_stores below =
      rw
        (tries-ok (reserve_attempt client fresh digest settings q w clock) 2 0 t
          (place client fresh digest settings q w clock n c t).1
          (made client fresh digest settings q w clock) (reserve_first below))
        (refl, placed.1)
