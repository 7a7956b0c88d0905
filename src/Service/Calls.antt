-- ===== src/Service/Calls.antt =====
-- escalation-proxy/app/investigation_service.py: whole calls of `create_investigation` on the in-memory
-- registry, with no other task between their operations.
use sre_agent_team.Base.{
  length, refl, List, ◌∷◌, ℕ, ◌+◌, ◌≤◌, ◌≡◌, ◌≢◌, ◌⊎◌, inl, inr, false, String, none, [], arith,
  ◌==◌, Bool-cases, Option-cases,
}
use sre_agent_team.Base.Fallible.{err, Result-cases}
use sre_agent_team.Base.Dict.{lookup}
use sre_agent_team.Http.{HttpException}
use sre_agent_team.Policy.Store.{CallerPolicy}
use sre_agent_team.Authorization.Claims.{SeveritySettings, validate_requested_severity}
use sre_agent_team.Registry.Record.{Registry, Settings}
use sre_agent_team.Registry.Reads.{find_by_idempotency_key}
use sre_agent_team.Registry.Admission.{Readings}
use sre_agent_team.Registry.Quota.{cleaned}
use sre_agent_team.Service.Interfaces.{PolicyOps, Config, CreateRequest, Caller}
use sre_agent_team.Service.Request.{
  Outside, Reply, check_texts, check_rest, request_fingerprint, replay,
}
use sre_agent_team.Service.Create.{
  reserve_and_send, create_admitted, create_authorized, create_checked, create_investigation,
}
use sre_agent_team.Service.Memory.{memory_registry}
use sre_agent_team.Service.Slots.{failed_token_takes_no_slot}
use sre_agent_team.Service.Admission.{sends_at_most_once}
use sre_agent_team.Service.Once.{key_sends_once}

nothing_or_sent : {A : Type 0} (xs : List A) → (xs ≡ []) ⊎ (xs ≢ [])
nothing_or_sent [] = inl refl
nothing_or_sent (x ∷ xs) = inr (λ e. cc)

-- The policy store does not touch the registry.
abbrev pub LeavesRegistry : PolicyOps Registry → Type 0
LeavesRegistry policies =
    ((appid severity : String) (s : Registry) → (policies.authorize appid severity s).1 ≡ s)
    × ((appid group : String) (s : Registry)
        → (policies.authorize_resource_group appid group s).1 ≡ s)

module _ (policies : PolicyOps Registry) (settings : Settings) (c : Config)
    (severities : SeveritySettings) where
  abbrev call : Outside → Readings → ℕ → CreateRequest → Caller → String → Registry → Reply Registry
  call o readings now =
      create_investigation policies (memory_registry settings readings now) (λ _ w. w) c severities
        o

  abbrev admitted_call :
      Outside
      → Readings
      → ℕ
      → CreateRequest
      → Caller
      → CallerPolicy
      → String
      → String
      → Registry
      → Reply Registry
  admitted_call o readings now =
      create_admitted policies (memory_registry settings readings now) (λ _ w. w) c severities o

  -- A call is refused by its checks, and leaves the registry, or is the call after them.
  call-cases :
      (o : Outside) (readings : Readings) (now : ℕ) (req : CreateRequest) (caller : Caller)
      (key : String) (s : Registry)
      → LeavesRegistry policies
      → (((call o readings now req caller key s).posts ≡ [])
          × ((call o readings now req caller key s).world ≡ s))
        ⊎ ((policy : CallerPolicy) × (severity : String) × (call o readings now req caller key s
              ≡ admitted_call o readings now req caller policy severity key s))
  unfolding create_investigation create_checked create_authorized
  call-cases o readings now req caller key s leaves = elim (Result-cases (check_texts c req)) [
    | inr e ↦ inl (ground arith, ground arith)
    | inl texts ↦
        elim (Result-cases (validate_requested_severity severities req.severity caller.claims)) [
          | inr e ↦ inl (ground arith, ground arith)
          | inl v ↦
              let first = policies.authorize caller.appid v.0 s in
              let same = leaves.0 caller.appid v.0 s in
              elim (Result-cases first.0) [
                | inr e ↦ inl (ground arith, ground arith)
                | inl p ↦ elim (Result-cases (check_rest c req key)) [
                  | inr e ↦ inl (ground arith, ground arith)
                  | inl rest ↦
                      let second =
                        policies.authorize_resource_group caller.appid req.resource_group_id
                          first.1 in
                      let same' = leaves.1 caller.appid req.resource_group_id first.1 in
                      elim (Result-cases second.0) [
                        | inr e ↦ inl (ground arith, ground arith)
                        | inl g ↦ inr (p.0, v.0, ground arith)
                      ]
                ]
              ]
        ]
  ]

  -- A call after the checks answers from the record that has the key, or reserves.
  admitted_call-cases :
      (o : Outside) (readings : Readings) (now : ℕ) (req : CreateRequest) (caller : Caller)
      (policy : CallerPolicy) (severity key : String) (s : Registry)
      → let reply = admitted_call o readings now req caller policy severity key s in
        ((reply.posts ≡ []) × (reply.world ≡ s))
        ⊎ (reply
            ≡ reserve_and_send policies
                (memory_registry settings readings now)
                (λ _ w. w)
                c
                severities
                o
                req
                caller
                policy
                severity
                key
                (request_fingerprint o req severity)
                s)
  unfolding create_admitted replay
  admitted_call-cases o readings now req caller policy severity key s =
      elim (Bool-cases (key == "")) [
        | inl t ↦ inr (ground arith)
        | inr f ↦
            elim (Option-cases (find_by_idempotency_key caller.appid key readings.search_clock s)) [
              | inl e ↦ inr (ground arith)
              | inr r ↦ inl (ground arith, ground arith)
            ]
      ]

  after_sent :
      (o o' : Outside) (readings readings' : Readings) (now now' : ℕ) (req req' : CreateRequest)
      (caller : Caller) (key : String) (s : Registry)
      → LeavesRegistry policies
      → key == "" ≡ false
      → readings'.search_clock readings.investigation_uuid
        ≤ readings.now + settings.active_metadata_retention_seconds
      → (call o readings now req caller key s).posts ≢ []
      → (call o' readings' now' req' caller key (call o readings now req caller key s).world).posts
        ≡ []
  after_sent o o' readings readings' now now' req req' caller key s leaves keyed live sent =
      let first = call o readings now req caller key s in
      elim (call-cases o readings now req caller key s leaves) [
        | inl refused ↦ absurd (sent refused.0)
        | inr a ↦ elim (admitted_call-cases o readings now req caller a.0 a.1 key s) [
          | inl known ↦ absurd (ground arith)
          | inr e ↦ elim (call-cases o' readings' now' req' caller key first.world leaves) [
            | inl refused ↦ refused.0
            | inr b ↦ ground (
              arith,
              key_sends_once policies settings readings now c severities o req req' caller a.0 b.0
                  a.1 b.1 key (request_fingerprint o req a.1) o' readings' now' s keyed live
                  (ground arith),
            )
          ]
        ]
      ]

  -- Two calls of `create_investigation`, one after the other, of one caller with one key, which is not
  -- empty, send at most one message to the platform between them, whatever becomes of it, where the
  -- second looks for the key before the retention that the first writes into its record has passed,
  -- the policy store does not touch the registry and no other task runs.
  pub retry_sends_nothing :
      (o o' : Outside) (readings readings' : Readings) (now now' : ℕ) (req req' : CreateRequest)
      (caller : Caller) (key : String) (s : Registry)
      → LeavesRegistry policies
      → key == "" ≡ false
      → readings'.search_clock readings.investigation_uuid
        ≤ readings.now + settings.active_metadata_retention_seconds
      → let first = call o readings now req caller key s in
        let second = call o' readings' now' req' caller key first.world in
        length first.posts + length second.posts ≤ 1
  retry_sends_nothing o o' readings readings' now now' req req' caller key s leaves keyed live =
      let once =
        sends_at_most_once policies (memory_registry settings readings now) (λ _ w. w) c severities
          o req caller key s in
      elim (nothing_or_sent (call o readings now req caller key s).posts) [
        | inl nothing ↦ ground (
          arith,
          sends_at_most_once policies (memory_registry settings readings' now') (λ _ w. w) c
              severities o' req' caller key (call o readings now req caller key s).world,
        )
        | inr sent ↦ ground (
          arith,
          after_sent o o' readings readings' now now' req req' caller key s leaves keyed live sent,
        )
      ]

  -- Where the platform's token cannot be had, a call of `create_investigation` leaves the records, or
  -- leaves them as the cleanup of its reservation does, under a uuid that none of these has: it takes
  -- no slot. The policy store does not touch the registry, and no other task runs.
  pub failed_token_keeps_slots :
      (o : Outside) (readings : Readings) (now : ℕ) (req : CreateRequest) (caller : Caller)
      (key : String) (s : Registry) (e : HttpException)
      → LeavesRegistry policies
      → o.platform_token ≡ err e
      → lookup readings.investigation_uuid (cleaned settings readings s).records ≡ none
      → ((call o readings now req caller key s).world.records ≡ s.records)
        ⊎ ((call o readings now req caller key s).world.records
            ≡ (cleaned settings readings s).records)
  failed_token_keeps_slots o readings now req caller key s e leaves token fresh =
      elim (call-cases o readings now req caller key s leaves) [
        | inl refused ↦ inl (ground arith)
        | inr a ↦ elim (admitted_call-cases o readings now req caller a.0 a.1 key s) [
          | inl known ↦ inl (ground arith)
          | inr same ↦ inr (
              ground (
                arith,
                failed_token_takes_no_slot policies settings readings now c severities o req caller
                    a.0 a.1 key (request_fingerprint o req a.1) s e token fresh,
              ))
        ]
      ]
