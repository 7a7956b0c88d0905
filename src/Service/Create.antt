-- ===== src/Service/Create.antt =====
-- escalation-proxy/app/investigation_service.py: `create_investigation`.
use sre_agent_team.Base.{ℕ, not, String, none, some, [], ◌∷◌, ◌==◌, if◌then◌else◌}
use sre_agent_team.Base.Fallible.{ok, err}
use sre_agent_team.Http.{http}
use sre_agent_team.Policy.Store.{CallerPolicy}
use sre_agent_team.Authorization.Claims.{SeveritySettings, validate_requested_severity}
use sre_agent_team.Service.Interfaces.{PolicyOps, RegistryOps, Config, CreateRequest, Caller}
use sre_agent_team.Service.Request.{
  Posted, raised, answered, Outside, Reply, refuse, reply, check_texts, check_rest, policy_refusal,
  request_fingerprint, escalation_message, already_exists, replay, reservation_request,
  reservation_refusal,
}

-- `others n` is what the other tasks do to the store while the call waits for its n-th operation.
module _ {W : Type 0} (policies : PolicyOps W) (registry : RegistryOps W) (others : ℕ → W → W)
    (c : Config) (severities : SeveritySettings) (o : Outside) where
  -- From the answer of the platform on.
  unfoldable pub settle : String → String → String → String → Posted → W → Reply W
  settle id appid correlation_id message (raised e) w = record {
    outcome = err e;
    world = w;
    posts = message ∷ [];
  }
  settle id appid correlation_id message (answered thread) w =
      if thread == ""
      then record {
        outcome = err (record { status_code = 502; correlation_id = some correlation_id });
        world = w;
        posts = message ∷ [];
      }
      else (let (finalized, w') = registry.finalize_reservation id appid thread (others 6 w) in
          elim finalized [
            | err _ ↦ record { outcome = err (http 500); world = w'; posts = message ∷ [] }
            | ok _ ↦ record {
              outcome = ok (record {
                investigation_id = id;
                status = "pending";
                message = "Investigation created on platform agent. Poll status every 5+ minutes.";
              });
              world = w';
              posts = message ∷ [];
            }
          ])

  -- The `try` block, from a new reservation on.
  unfoldable pub send : String → String → String → String → W → Reply W
  send id appid correlation_id message w = elim o.platform_token [
    | err e ↦
        let (released, w') = registry.release_reservation id appid (others 4 w) in
        elim released [ err _ ↦ refuse (http 500) w' | ok _ ↦ refuse e w' ]
    | ok token ↦ settle id appid correlation_id message (o.post token message) (others 5 w)
  ]

  unfoldable pub reserve_and_send :
      CreateRequest → Caller → CallerPolicy → String → String → String → W → Reply W
  reserve_and_send req caller policy severity idempotency_key fingerprint w =
      let (reservation, w') =
        registry.reserve_investigation
          (reservation_request req caller policy severity idempotency_key fingerprint o.uuid)
          (others 3 w) in
      elim reservation [
        | err e ↦ refuse (reservation_refusal o.uuid e) w'
        | ok made ↦
            if not made.created
            then reply made.investigation_id "pending" already_exists w'
            else send made.investigation_id caller.appid o.uuid
                (escalation_message c req severity made.investigation_id o.uuid) w'
      ]

  -- The call after its admission checks.
  unfoldable pub create_admitted :
      CreateRequest → Caller → CallerPolicy → String → String → W → Reply W
  create_admitted req caller policy severity idempotency_key w =
      let fingerprint = request_fingerprint o req severity in
      if idempotency_key == ""
      then reserve_and_send req caller policy severity idempotency_key fingerprint w
      else (let (existing, w') =
            registry.find_by_idempotency_key caller.appid idempotency_key (others 2 w) in
          elim existing [
            | err _ ↦ refuse (http 500) w'
            | ok (some r) ↦ replay r fingerprint w'
            | ok none ↦ reserve_and_send req caller policy severity idempotency_key fingerprint w'
          ])

  -- The call from the admission by the caller's policy on.
  unfoldable pub create_authorized :
      CreateRequest → Caller → String → CallerPolicy → String → W → Reply W
  create_authorized req caller idempotency_key policy severity w =
      elim (check_rest c req idempotency_key) [
        | err e ↦ refuse e w
        | ok _ ↦
            let (granted, w') =
              policies.authorize_resource_group caller.appid req.resource_group_id (others 1 w) in
            elim granted [
              | err e ↦ refuse (policy_refusal e) w'
              | ok _ ↦ create_admitted req caller policy severity idempotency_key w'
            ]
      ]

  unfoldable pub create_checked : CreateRequest → Caller → String → String → W → Reply W
  create_checked req caller idempotency_key severity w =
      let (admission, w') = policies.authorize caller.appid severity (others 0 w) in
      elim admission [
        | err e ↦ refuse (policy_refusal e) w'
        | ok policy ↦ create_authorized req caller idempotency_key policy severity w'
      ]

  unfoldable pub create_investigation : CreateRequest → Caller → String → W → Reply W
  create_investigation req caller idempotency_key w = elim (check_texts c req) [
    | err e ↦ refuse e w
    | ok _ ↦ elim (validate_requested_severity severities req.severity caller.claims) [
      | err _ ↦ refuse (http 400) w
      | ok severity ↦ create_checked req caller idempotency_key severity w
    ]
  ]
