-- ===== src/Table/Admission.antt =====
-- escalation-proxy/app/investigation_registry.py, `TableStorageInvestigationRegistry`: reserving a quota slot,
-- attaching the platform thread to it, and giving it back.
use sre_agent_team.Base.{
  ℕ, ◌+◌, Bool, true, false, not, ◌&&◌, String, Option, none, some, List, [], ◌∷◌, eqb, leb, ◌==◌,
  if◌then◌else◌,
}
use sre_agent_team.Base.Fallible.{ok, err}
use sre_agent_team.Base.Dict.{lookup}
use sre_agent_team.Registry.Record.{
  InvestigationRecord, Settings, ReservationResult, is_reserved, idempotency_conflict,
  quota_reached, reservation_not_found,
}
use sre_agent_team.Registry.Admission.{ReservationRequest, Readings, new_record, attach_thread}
use sre_agent_team.Table.Entity.{
  Entity, text, number, flag, TableError, not_found, modified, transaction, raises, not_recovered,
  is_concurrency_conflict, entity_etag, to_entity, from_entity,
}
use sre_agent_team.Table.Client.{
  Action, ◌>>=◌, ◌>>◌, lift, ensure, Operation, replace, create, TableClient, again_on_conflict,
  tries, update_read, delete_entity_if_unchanged,
}
use sre_agent_team.Table.Counter.{
  idempotency_index_key, count_in, with_count, get_or_create_quota_counter, decrement_quota_counter,
  reconcile_quota_counter,
}
use sre_agent_team.Table.Reads.{get_idempotency_record}

-- The index entry of a reservation.
abbrev pub index_entity : (String → String) → ReservationRequest → InvestigationRecord → Entity
index_entity digest q r = record {
  partition_key = q.caller_appid;
  row_key = idempotency_index_key digest q.idempotency_key;
  properties =
      ("investigation_id", text r.investigation_id)
      ∷ ("request_fingerprint", text q.request_fingerprint)
      ∷ ("expires_at", number r.expires_at)
      ∷ [];
  etag = none;
}

abbrev pub index_operation :
    (String → String) → ReservationRequest → InvestigationRecord → List Operation
index_operation digest q r =
    if q.idempotency_key == "" then [] else create (index_entity digest q r) ∷ []

-- The transaction of a reservation: the counter one up, under the ETag `tag` that was read, and the new
-- rows.
unfoldable pub reserve_operations :
    (String → String)
    → ReservationRequest
    → InvestigationRecord
    → ℕ
    → Entity
    → String
    → List Operation
reserve_operations digest q r count counter tag =
    replace (with_count (count + 1) counter) tag ∷ create (to_entity r) ∷ index_operation digest q r

-- `isinstance(exc, (ResourceModifiedError, TableTransactionError))`
abbrev pub is_batch_error : TableError → Bool
is_batch_error modified = true
is_batch_error (transaction status_code) = true
is_batch_error _ = false

-- `isinstance(exc, TableTransactionError) and status_code == 409`
abbrev pub is_duplicate : TableError → Bool
is_duplicate (transaction status_code) = eqb status_code 409
is_duplicate _ = false

-- The record is the one of this reservation, and is still reserved.
unfoldable pub is_committed : ReservationRequest → InvestigationRecord → Bool
is_committed q r =
    r.caller_appid == q.caller_appid
    && r.workload_identity_appid == q.workload_identity_appid
    && r.idempotency_key == q.idempotency_key
    && r.request_fingerprint == q.request_fingerprint
    && is_reserved r.reservation_state

-- `w` is what a call reads from outside, `clock n` the time at which round `n` counts the live rows.
module _ {T : Type 0} (client : TableClient T) (fresh : String) (digest : String → String)
    (settings : Settings) (q : ReservationRequest) (w : Readings) (clock : ℕ → ℕ) where
  abbrev pub made : ReservationResult
  made = record { investigation_id = w.investigation_uuid; created = true }

  -- A round that finds the counter at the maximum.
  unfoldable pub full : ℕ → Entity → Action T (Option ReservationResult)
  full n counter t =
      let (reconciled, t') =
        again_on_conflict
          (reconcile_quota_counter client q.workload_identity_appid (clock n) counter) t in
      elim reconciled [
        | err e ↦ (err e, t')
        | ok none ↦ (ok none, t')
        | ok (some true) ↦ (ok none, t')
        | ok (some false) ↦ (err (raises (quota_reached q.maximum_investigations)), t')
      ]

  -- The answer from the record that has the key already.
  unfoldable pub answer_duplicate : Action T (Option ReservationResult)
  answer_duplicate t =
      let (found, t') =
        get_idempotency_record client fresh digest q.caller_appid q.idempotency_key w.search_clock
          t in
      elim found [
        | err e ↦ (err e, t')
        | ok none ↦ (err not_recovered, t')
        | ok (some r) ↦
            if not (r.request_fingerprint == q.request_fingerprint)
            then (err (raises idempotency_conflict), t')
            else (ok (some (record { investigation_id = r.investigation_id; created = false })), t')
      ]

  -- `except Exception`: whether the transaction was committed all the same.
  unfoldable pub recover : TableError → Action T (Option ReservationResult)
  recover e t =
      let (found, t') = client.get_entity q.workload_identity_appid w.investigation_uuid t in
      elim found [
        | err not_found ↦ (err e, t')
        | err x ↦ (err x, t')
        | ok entity ↦ elim (from_entity fresh entity) [
          | err not_found ↦ (err e, t')
          | err x ↦ (err x, t')
          | ok r ↦ (if is_committed q r then ok (some made) else err e, t')
        ]
      ]

  -- What follows the error of a transaction.
  unfoldable pub after_error : TableError → Action T (Option ReservationResult)
  after_error e t =
      if not (is_batch_error e)
      then recover e t
      else if not (q.idempotency_key == "") && is_duplicate e
      then answer_duplicate t
      else if is_concurrency_conflict e
      then (ok none, t)
      else (err e, t)

  -- The transaction of a round that finds the counter at `count`.
  unfoldable pub place : ℕ → Entity → Action T (Unit {0})
  place count counter t = elim (entity_etag counter) [
    | err e ↦ (err e, t)
    | ok tag ↦
        client.submit_transaction
          (reserve_operations digest q (new_record settings q w) count counter tag) t
  ]

  unfoldable pub reserve_slot : ℕ → Entity → Action T (Option ReservationResult)
  reserve_slot count counter t =
      let (placed, t') = place count counter t in
      elim placed [ ok _ ↦ (ok (some made), t') | err e ↦ after_error e t' ]

  unfoldable pub reserve_round : ℕ → ℕ → Entity → Action T (Option ReservationResult)
  reserve_round n count counter =
      if leb q.maximum_investigations count then full n counter else reserve_slot count counter

  unfoldable pub reserve_attempt : ℕ → Action T (Option ReservationResult)
  reserve_attempt n = do
    counter ← get_or_create_quota_counter client q.workload_identity_appid
    count ← lift (count_in counter)
    reserve_round n count counter

module _ {T : Type 0} (client : TableClient T) (fresh : String) where
  unfoldable pub finalize_attempt : String → String → String → ℕ → Action T (Option (Unit {0}))
  finalize_attempt investigation_id caller_appid platform_thread_id now = do
    entity ← client.get_entity caller_appid investigation_id
    r ← lift (from_entity fresh entity)
    ensure (r.caller_appid == caller_appid) (raises reservation_not_found)
    again_on_conflict
        (update_read client (to_entity (attach_thread platform_thread_id now r)) entity)

  -- `clock n` is the time of round `n`.
  unfoldable pub finalize_reservation : String → String → String → (ℕ → ℕ) → Action T (Unit {0})
  finalize_reservation investigation_id caller_appid platform_thread_id clock =
      tries 3 0 (λ n. finalize_attempt investigation_id caller_appid platform_thread_id (clock n))

-- `entity.get("caller_appid") == caller_appid and entity.get("reservation_state") == "reserved"`
unfoldable pub has_text : String → String → Entity → Bool
has_text key s e = elim (lookup key e.properties) [
  | none ↦ false
  | some (text v) ↦ v == s
  | some (number n) ↦ false
  | some (flag b) ↦ false
]

module _ {T : Type 0} (client : TableClient T) where
  -- The removal of the entity, and of its slot.
  unfoldable pub release_entity : String → Entity → Action T (Option (Unit {0}))
  release_entity caller_appid entity =
      again_on_conflict
        (delete_entity_if_unchanged client entity >> decrement_quota_counter client caller_appid)

  unfoldable pub release_attempt : String → String → Action T (Option (Unit {0}))
  release_attempt investigation_id caller_appid t =
      let (found, t') = client.get_entity caller_appid investigation_id t in
      elim found [
        | err not_found ↦ (ok (some tt), t')
        | err e ↦ (err e, t')
        | ok entity ↦
            if has_text "caller_appid" caller_appid entity
              && has_text "reservation_state" "reserved" entity
            then release_entity caller_appid entity t'
            else (ok (some tt), t')
      ]

  unfoldable pub release_reservation : String → String → Action T (Unit {0})
  release_reservation investigation_id caller_appid =
      tries 3 0 (λ _. release_attempt investigation_id caller_appid)
