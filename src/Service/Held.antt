-- ===== src/Service/Held.antt =====
-- escalation-proxy/app/investigation_service.py: the record that a call of `create_investigation` which sends
-- its message leaves in the in-memory registry.
use sre_agent_team.Base.{
  ℕ, ◌+◌, ◌≡◌, ◌≢◌, refl, true, String, none, some, [], ◌∷◌, arith, ◌==◌, Bool-cases, inl, inr,
}
use sre_agent_team.Base.Fallible.{ok, Result-cases}
use sre_agent_team.Base.Dict.{Dict, lookup, lookup-update, lookup-insert}
use sre_agent_team.Authorization.Claims.{SeveritySettings}
use sre_agent_team.Policy.Store.{CallerPolicy}
use sre_agent_team.Registry.Record.{InvestigationRecord, Registry, ReservationResult, Settings}
use sre_agent_team.Registry.Admission.{
  attach_thread, finalize_reservation, new_record, ReservationRequest, Readings,
  reserve_investigation, reserve_clean, admit,
}
use sre_agent_team.Registry.Reads.{answers_key, find_key}
use sre_agent_team.Registry.Quota.{cleaned}
use sre_agent_team.Service.Interfaces.{PolicyOps, Config, CreateRequest, Caller}
use sre_agent_team.Service.Request.{
  Posted, raised, answered, Outside, reservation_request, escalation_message,
}
use sre_agent_team.Service.Create.{settle, reserve_and_send, send}
use sre_agent_team.Service.Memory.{memory_registry}

pub found_answers :
    (k app key : String) (clock : String → ℕ) (d : Dict InvestigationRecord)
    (r : InvestigationRecord)
    → lookup k d ≡ some r
    → answers_key app key (clock k) r ≡ true
    → find_key app key clock d ≢ none
unfolding lookup find_key
found_answers k app key clock [] r h a = cc
found_answers k app key clock ((j, x) ∷ d) r h a = ground (arith, found_answers k app key clock d r)

module _ (policies : PolicyOps Registry) (settings : Settings) (readings : Readings) (now : ℕ)
    (c : Config) (severities : SeveritySettings) (o : Outside) where
  -- The record under the id is the caller's, has the key, and expires at the time.
  abbrev pub Held : String → String → String → ℕ → Registry → Type 0
  Held id appid key expiry s =
      (r : InvestigationRecord) × (lookup id s.records ≡ some r)
      × (r.caller_appid ≡ appid)
      × (r.idempotency_key ≡ key)
      × (r.expires_at ≡ expiry)

  finalize_reservation-Held :
      (id appid thread key : String) (t expiry : ℕ) (s : Registry)
      → Held id appid key expiry s
      → Held id appid key expiry (finalize_reservation id appid thread t s).1
  unfolding finalize_reservation
  finalize_reservation-Held id appid thread key t expiry s (r, found, owner, same, at) = (
    attach_thread thread t r,
    ground (arith, lookup-update id id (attach_thread thread t) s.records),
    owner,
    same,
    at,
  )

  settle-Held :
      (id appid key correlation message : String) (expiry : ℕ) (p : Posted) (s : Registry)
      → Held id appid key expiry s
      → Held id appid key expiry
          (settle policies
            (memory_registry settings readings now)
            (λ _ w. w)
            c
            severities
            o
            id
            appid
            correlation
            message
            p
            s).world
  unfolding settle
  settle-Held id appid key correlation message expiry (raised e) s held = held
  settle-Held id appid key correlation message expiry (answered thread) s held =
      let next = finalize_reservation-Held id appid thread key now expiry s held in
      elim (Bool-cases (thread == "")) [
        | inl t ↦ (held.0, ground arith, held.2, held.3, held.4)
        | inr f ↦ elim (Result-cases (finalize_reservation id appid thread now s).0) [
          | inl a ↦ (next.0, ground arith, next.2, next.3, next.4)
          | inr e ↦ (next.0, ground arith, next.2, next.3, next.4)
        ]
      ]

  send-Held :
      (id appid key correlation message : String) (expiry : ℕ) (s : Registry)
      → (send policies
          (memory_registry settings readings now)
          (λ _ w. w)
          c
          severities
          o
          id
          appid
          correlation
          message
          s).posts
        ≢ []
      → Held id appid key expiry s
      → Held id appid key expiry
          (send policies
            (memory_registry settings readings now)
            (λ _ w. w)
            c
            severities
            o
            id
            appid
            correlation
            message
            s).world
  unfolding send
  send-Held id appid key correlation message expiry s sent held =
      elim (Result-cases o.platform_token) [
        | inr e ↦ absurd (ground arith)
        | inl t ↦
            let next =
              settle-Held id appid key correlation message expiry (o.post t.0 message) s held in
            (next.0, ground arith, next.2, next.3, next.4)
      ]

  reserve-Held :
      (q : ReservationRequest) (s : Registry) (made : ReservationResult)
      → (reserve_investigation settings q readings s).0 ≡ ok made
      → made.created ≡ true
      → (made.investigation_id ≡ readings.investigation_uuid)
        × Held readings.investigation_uuid q.caller_appid q.idempotency_key
            (readings.now + settings.active_metadata_retention_seconds)
            (reserve_investigation settings q readings s).1
  unfolding reserve_investigation reserve_clean admit new_record
  reserve-Held q s made e t = (
    ground arith,
    (
      new_record settings q readings,
      ground (
        arith,
        lookup-insert readings.investigation_uuid readings.investigation_uuid
            (new_record settings q readings) (cleaned settings readings s).records,
      ),
      refl,
      refl,
      refl,
    ),
  )

  pub reserve_and_send-Held :
      (req : CreateRequest) (caller : Caller) (policy : CallerPolicy)
      (severity key fingerprint : String) (s : Registry)
      → (reserve_and_send policies
          (memory_registry settings readings now)
          (λ _ w. w)
          c
          severities
          o
          req
          caller
          policy
          severity
          key
          fingerprint
          s).posts
        ≢ []
      → Held readings.investigation_uuid caller.appid key
          (readings.now + settings.active_metadata_retention_seconds)
          (reserve_and_send policies
            (memory_registry settings readings now)
            (λ _ w. w)
            c
            severities
            o
            req
            caller
            policy
            severity
            key
            fingerprint
            s).world
  unfolding reserve_and_send reservation_request
  reserve_and_send-Held req caller policy severity key fingerprint s sent =
      let q = reservation_request req caller policy severity key fingerprint o.uuid in
      let made = reserve_investigation settings q readings s in
      let expiry = readings.now + settings.active_metadata_retention_seconds in
      elim (Result-cases made.0) [
        | inr e ↦ absurd (ground arith)
        | inl r ↦ elim (Bool-cases r.0.created) [
          | inr f ↦ absurd (ground arith)
          | inl t ↦
              let held = reserve-Held q s r.0 r.1 t in
              let id = r.0.investigation_id in
              let message = escalation_message c req severity id o.uuid in
              let next =
                send-Held id caller.appid key o.uuid message expiry made.1 (ground arith)
                  (held.1.0, ground arith, held.1.2, held.1.3, held.1.4) in
              (next.0, ground arith, next.2, next.3, next.4)
        ]
      ]
