-- ===== src/Service/Slots.antt =====
-- escalation-proxy/app/investigation_service.py: `create_investigation` and the quota slots of the in-memory
-- registry.
use sre_agent_team.Base.{ℕ, ◌≡◌, String, none, arith, Bool-cases, inl, inr}
use sre_agent_team.Base.Fallible.{err, Result-cases}
use sre_agent_team.Base.Dict.{lookup}
use sre_agent_team.Http.{HttpException}
use sre_agent_team.Authorization.Claims.{SeveritySettings}
use sre_agent_team.Policy.Store.{CallerPolicy}
use sre_agent_team.Registry.Record.{Registry, Settings}
use sre_agent_team.Registry.Admission.{Readings, reserve_investigation, reserve_clean, admit}
use sre_agent_team.Registry.Quota.{cleaned, release_undoes_reserve}
use sre_agent_team.Service.Interfaces.{PolicyOps, Config, CreateRequest, Caller}
use sre_agent_team.Service.Request.{Outside, Reply, reservation_request}
use sre_agent_team.Service.Create.{reserve_and_send, send}
use sre_agent_team.Service.Memory.{memory_registry}

module _ (policies : PolicyOps Registry) (settings : Settings) (readings : Readings) (now : ℕ)
    (c : Config) (severities : SeveritySettings) (o : Outside) where
  abbrev run :
      CreateRequest → Caller → CallerPolicy → String → String → String → Registry → Reply Registry
  run = reserve_and_send policies (memory_registry settings readings now) (λ _ w. w) c severities o

  -- Where the platform's token cannot be had and no other task runs, the call leaves the records as
  -- the reservation's cleanup leaves them, under a uuid that none of these has: it takes no slot.
  pub failed_token_takes_no_slot :
      (req : CreateRequest) (caller : Caller) (policy : CallerPolicy)
      (severity key fingerprint : String) (s : Registry) (e : HttpException)
      → o.platform_token ≡ err e
      → lookup readings.investigation_uuid (cleaned settings readings s).records ≡ none
      → (run req caller policy severity key fingerprint s).world.records
        ≡ (cleaned settings readings s).records
  unfolding reserve_and_send send reserve_investigation reserve_clean admit reservation_request
  failed_token_takes_no_slot req caller policy severity key fingerprint s e token fresh =
      let q = reservation_request req caller policy severity key fingerprint o.uuid in
      let made = reserve_investigation settings q readings s in
      elim (Result-cases made.0) [
        | inr e' ↦ ground arith
        | inl r ↦ elim (Bool-cases r.0.created) [
          | inl t ↦ ground (
            arith,
            release_undoes_reserve settings q readings s made.1 r.0 fresh (ground arith) t,
          )
          | inr f ↦ ground arith
        ]
      ]
