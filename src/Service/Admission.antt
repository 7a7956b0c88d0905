-- ===== src/Service/Admission.antt =====
-- escalation-proxy/app/investigation_service.py: what `create_investigation` sends to the platform.
use sre_agent_team.Base.{
  ℕ, ◌≤◌, ◌≡◌, ◌≢◌, refl, String, [], ◌∷◌, length, arith, Option-cases, inl, inr,
}
use sre_agent_team.Base.Fallible.{ok, Result-cases}
use sre_agent_team.Authorization.Claims.{SeveritySettings, validate_requested_severity}
use sre_agent_team.Policy.Store.{CallerPolicy}
use sre_agent_team.Registry.Record.{InvestigationRecord}
use sre_agent_team.Service.Interfaces.{PolicyOps, RegistryOps, Config, CreateRequest, Caller}
use sre_agent_team.Service.Request.{
  Outside, Posted, raised, answered, check_texts, check_rest, replay, request_fingerprint,
  reservation_request, escalation_message,
}
use sre_agent_team.Service.Create.{
  settle, send, reserve_and_send, create_admitted, create_authorized, create_checked,
  create_investigation,
}

pub replay-posts :
    {W : Type 0} (r : InvestigationRecord) (fingerprint : String) (w : W)
    → (replay r fingerprint w).posts ≡ []
unfolding replay
replay-posts r fingerprint w = ground arith

module _ {W : Type 0} (policies : PolicyOps W) (registry : RegistryOps W) (others : ℕ → W → W)
    (c : Config) (severities : SeveritySettings) (o : Outside) where
  -- What the caller's request passes before anything is sent.
  abbrev pub Admitted : CreateRequest → Caller → String → W → Type 0
  Admitted req caller key w =
      (check_texts c req ≡ ok tt)
      × (check_rest c req key ≡ ok tt)
      × (severity : String) × (validate_requested_severity severities req.severity caller.claims
          ≡ ok severity)
      × (policy : CallerPolicy) × (granted : CallerPolicy) × (w1 : W) × (w2 : W)
      × (policies.authorize caller.appid severity (others 0 w) ≡ (ok policy, w1))
      × (policies.authorize_resource_group caller.appid req.resource_group_id (others 1 w1)
          ≡ (ok granted, w2))

  -- A call of `create_investigation` that sends anything to the platform has passed every size check,
  -- the severity claim, the caller's policy at that severity, and the caller's resource groups.
  pub sends_only-Admitted :
      (req : CreateRequest) (caller : Caller) (key : String) (w : W)
      → (create_investigation policies registry others c severities o req caller key w).posts ≢ []
      → Admitted req caller key w
  unfolding create_investigation create_checked create_authorized
  sends_only-Admitted req caller key w sent = elim (Result-cases (check_texts c req)) [
    | inr e ↦ absurd (ground arith)
    | inl texts ↦
        elim (Result-cases (validate_requested_severity severities req.severity caller.claims)) [
          | inr e ↦ absurd (ground arith)
          | inl v ↦
              let first = policies.authorize caller.appid v.0 (others 0 w) in
              elim (Result-cases first.0) [
                | inr e ↦ absurd (ground arith)
                | inl p ↦ elim (Result-cases (check_rest c req key)) [
                  | inr e ↦ absurd (ground arith)
                  | inl rest ↦
                      let second =
                        policies.authorize_resource_group caller.appid req.resource_group_id
                          (others 1 first.1) in
                      elim (Result-cases second.0) [
                        | inr e ↦ absurd (ground arith)
                        | inl g ↦ (
                          ground arith,
                          ground arith,
                          v.0,
                          v.1,
                          p.0,
                          g.0,
                          first.1,
                          second.1,
                          ground arith,
                          ground arith,
                        )
                      ]
                ]
              ]
        ]
  ]

  settle-posts :
      (id appid correlation message : String) (p : Posted) (w : W)
      → (settle policies registry others c severities o id appid correlation message p w).posts
        ≡ message ∷ []
  unfolding settle
  settle-posts id appid correlation message (raised e) w = refl
  settle-posts id appid correlation message (answered thread) w = ground arith

  send-posts :
      (id appid correlation message : String) (w : W)
      → length (send policies registry others c severities o id appid correlation message w).posts
        ≤ 1
  unfolding send
  send-posts id appid correlation message w = elim (Result-cases o.platform_token) [
    | inr e ↦ ground arith
    | inl t ↦
        ground (arith, settle-posts id appid correlation message (o.post t.0 message) (others 5 w))
  ]

  reserve_and_send-posts :
      (req : CreateRequest) (caller : Caller) (policy : CallerPolicy)
      (severity key fingerprint : String) (w : W)
      → length
          (reserve_and_send policies registry others c severities o req caller policy severity key
            fingerprint w).posts
        ≤ 1
  unfolding reserve_and_send
  reserve_and_send-posts req caller policy severity key fingerprint w =
      let made =
        registry.reserve_investigation
          (reservation_request req caller policy severity key fingerprint o.uuid) (others 3 w) in
      elim (Result-cases made.0) [
        | inr e ↦ ground arith
        | inl r ↦ ground (
          arith,
          send-posts r.0.investigation_id caller.appid o.uuid
              (escalation_message c req severity r.0.investigation_id o.uuid) made.1,
        )
      ]

  create_admitted-posts :
      (req : CreateRequest) (caller : Caller) (policy : CallerPolicy) (severity key : String)
      (w : W)
      → length
          (create_admitted policies registry others c severities o req caller policy severity key
            w).posts
        ≤ 1
  unfolding create_admitted
  create_admitted-posts req caller policy severity key w =
      let fingerprint = request_fingerprint o req severity in
      let found = registry.find_by_idempotency_key caller.appid key (others 2 w) in
      let unkeyed = reserve_and_send-posts req caller policy severity key fingerprint w in
      elim (Result-cases found.0) [
        | inr e ↦ ground (arith, unkeyed)
        | inl given ↦ elim (Option-cases given.0) [
          | inl e ↦ ground (
            arith,
            unkeyed,
            reserve_and_send-posts req caller policy severity key fingerprint found.1,
          )
          | inr r ↦ ground (arith, unkeyed, replay-posts r.0 fingerprint found.1)
        ]
      ]

  -- One call of `create_investigation` sends at most one message to the platform.
  pub sends_at_most_once :
      (req : CreateRequest) (caller : Caller) (key : String) (w : W)
      → length (create_investigation policies registry others c severities o req caller key w).posts
        ≤ 1
  unfolding create_investigation create_checked create_authorized
  sends_at_most_once req caller key w = elim (Result-cases (check_texts c req)) [
    | inr e ↦ ground arith
    | inl texts ↦
        elim (Result-cases (validate_requested_severity severities req.severity caller.claims)) [
          | inr e ↦ ground arith
          | inl v ↦
              let first = policies.authorize caller.appid v.0 (others 0 w) in
              elim (Result-cases first.0) [
                | inr e ↦ ground arith
                | inl p ↦ elim (Result-cases (check_rest c req key)) [
                  | inr e ↦ ground arith
                  | inl rest ↦
                      let second =
                        policies.authorize_resource_group caller.appid req.resource_group_id
                          (others 1 first.1) in
                      ground (arith, create_admitted-posts req caller p.0 v.0 key second.1)
                ]
              ]
        ]
  ]
