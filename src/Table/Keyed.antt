-- ===== src/Table/Keyed.antt =====
-- escalation-proxy/app/investigation_registry.py: a reservation with an idempotency key is found again by that key.
use sre_agent_team.Base.{
  ℕ, zero, suc, ◌+◌, ◌≡◌, refl, sym, ap, ◌∙◌, true, false, String, Option, some, none, [], ltb, leb,
  ◌==◌, arith, string_discrete, take,
}
use sre_agent_team.Base.Fallible.{ok}
use sre_agent_team.Base.Dict.{lookup}
use sre_agent_team.Registry.Record.{InvestigationRecord, Settings}
use sre_agent_team.Registry.Admission.{ReservationRequest, Readings, new_record}
use sre_agent_team.Table.Entity.{Entity, text_at, to_entity}
use sre_agent_team.Table.Client.{TableClient, expires_before, tries}
use sre_agent_team.Table.Counter.{quota_counter_key, idempotency_index_key, count_in, with_count}
use sre_agent_team.Table.Admission.{index_entity, reserve_attempt}
use sre_agent_team.Table.Reads.{get_investigation, get_idempotency_record, read_index}
use sre_agent_team.Table.Sweeps.{
  reserve_investigation, cleanup_expired, expired_entities, remove_each,
}
use sre_agent_team.Table.Laws.{body, IsAlone}
use sre_agent_team.Table.RoundTrip.{stored}
use sre_agent_team.Table.Stored.{body-stored}
use sre_agent_team.Table.Represents.{IsId}
use sre_agent_team.Table.Effects.{row_of_body, count_in-body, count_in-with_count}
use sre_agent_team.Table.Finding.{get_live}
use sre_agent_team.Table.Reserved.{reservation_stores}

index_names :
    (digest : String → String) (q : ReservationRequest) (r : InvestigationRecord) (e : Entity)
    → body e ≡ body (index_entity digest q r)
    → text_at "investigation_id" e ≡ ok r.investigation_id
unfolding text_at lookup string_discrete
index_names digest q r e h = ground arith

expired_nothing : (now limit : ℕ) → expired_entities now (take {A = Entity} limit []) ≡ ok []
unfolding expired_entities
expired_nothing now zero = refl
expired_nothing now (suc limit) = refl

cleanup_nothing :
    {T : Type 0} (client : TableClient T) (digest : String → String) (limit now : ℕ) (t : T)
    → client.query_entities (expires_before now) t ≡ (ok [], t)
    → cleanup_expired client digest limit now t ≡ (ok 0, t)
unfolding cleanup_expired expired_entities remove_each
cleanup_nothing client digest limit now t nothing = ground (arith, expired_nothing now limit)

after_cleanup :
    {T : Type 0} (client : TableClient T) (fresh : String) (digest : String → String)
    (settings : Settings) (q : ReservationRequest) (w : Readings) (clock : ℕ → ℕ) (t : T)
    → client.query_entities (expires_before w.cleanup_time) t ≡ (ok [], t)
    → reserve_investigation client digest fresh settings q w clock t
      ≡ tries 3 0 (reserve_attempt client fresh digest settings q w clock) t
unfolding reserve_investigation
after_cleanup client fresh digest settings q w clock t nothing = ground (
  arith,
  cleanup_nothing client digest settings.max_expiry_cleanup_batch_size w.cleanup_time t nothing,
)

module _ {T : Type 0} (client : TableClient T) (rows : T → String → String → Option Entity)
    (alone : IsAlone client rows) (fresh : String) (digest : String → String) (pk key : String)
    (clock : String → ℕ) (t : T) where
  found_by_index :
      (e : Entity) (tag : Option String) (r : InvestigationRecord)
      → rows t pk (idempotency_index_key digest key) ≡ some e
      → text_at "investigation_id" e ≡ ok r.investigation_id
      → rows t pk r.investigation_id ≡ some (stored tag r)
      → r.workload_identity_appid ≡ pk
      → ltb r.expires_at (clock r.investigation_id) ≡ false
      → get_idempotency_record client fresh digest pk key clock t ≡ (ok (some r), t)
  unfolding get_idempotency_record read_index
  found_by_index e tag r index names here mine live = ground (
    arith,
    alone.reads pk (idempotency_index_key digest key) t,
    get_live client rows alone fresh r.investigation_id "" pk (clock r.investigation_id) t tag r
        here mine live,
  )

-- A reservation with an idempotency key, made where nothing has expired, the caller's counter reads less than the
-- maximum, and neither the id nor the key is in use: it is answered as created, puts the counter one
-- up, and the same caller is then given the record that it made both by its id and by the key, at every
-- time up to its expiry, with the table left as it is. The table's client is the only one and is
-- answered; the caller's application is also its workload identity.
pub keyed_reservation_found :
    {T : Type 0} (client : TableClient T) (rows : T → String → String → Option Entity)
    (fresh : String) (digest : String → String) (settings : Settings) (q : ReservationRequest)
    (w : Readings) (clock : ℕ → ℕ) (find_clock : String → ℕ) (oid : String) (t : T) (c : Entity)
    (n : ℕ)
    → IsAlone client rows
    → IsId w.investigation_uuid
    → q.caller_appid ≡ q.workload_identity_appid
    → (q.idempotency_key == "") ≡ false
    → client.query_entities (expires_before w.cleanup_time) t ≡ (ok [], t)
    → rows t q.workload_identity_appid quota_counter_key ≡ some c
    → count_in c ≡ ok n
    → leb q.maximum_investigations n ≡ false
    → rows t q.workload_identity_appid w.investigation_uuid ≡ none
    → rows t q.workload_identity_appid (idempotency_index_key digest q.idempotency_key) ≡ none
    → ltb (new_record settings q w).expires_at (find_clock w.investigation_uuid) ≡ false
    → let pk = q.workload_identity_appid in
      let r = new_record settings q w in
      let (x, t') = reserve_investigation client digest fresh settings q w clock t in
      (x ≡ ok (record { investigation_id = w.investigation_uuid; created = true }))
      × ((c' : Entity) × (rows t' pk quota_counter_key ≡ some c') × (count_in c' ≡ ok (n + 1)))
      × (get_investigation client fresh w.investigation_uuid oid pk
            (find_clock w.investigation_uuid)
            t'
          ≡ (ok r, t'))
      × (get_idempotency_record client fresh digest pk q.idempotency_key find_clock t'
          ≡ (ok (some r), t'))
unfolding new_record
keyed_reservation_found client rows fresh digest settings q w clock find_clock oid t c n alone is_id
      same keyed nothing counter counts below no_row no_index live =
    let r = new_record settings q w in
    let pk = q.workload_identity_appid in
    let (answered, (at_id, at_index, at_counter)) =
      reservation_stores client rows alone fresh digest settings q w clock t c n is_id same keyed
        counter counts no_row no_index below in
    let t' = (tries 3 0 (reserve_attempt client fresh digest settings q w clock) t).1 in
    let (e, here, b) = row_of_body (rows t' pk w.investigation_uuid) (to_entity r) at_id in
    let (i, index, bi) =
      row_of_body (rows t' pk (idempotency_index_key digest q.idempotency_key))
        (body (index_entity digest q r)) at_index in
    let (c', counter', bc) =
      row_of_body (rows t' pk quota_counter_key) (body (with_count (n + 1) c)) at_counter in
    let stands = here ∙ ap (λ (y : Entity). some y) (body-stored e r b) in
    rw (after_cleanup client fresh digest settings q w clock t nothing) (
      answered,
      (
        c',
        counter',
        sym (count_in-body c')
            ∙ ap count_in bc
            ∙ count_in-body (with_count (n + 1) c)
            ∙ count_in-with_count (n + 1) c,
      ),
      get_live client rows alone fresh w.investigation_uuid oid pk (find_clock w.investigation_uuid)
          t' e.etag r stands refl live,
      found_by_index client rows alone fresh digest pk q.idempotency_key find_clock t' i e.etag r
          index (index_names digest q r i bi) stands refl live,
    )
