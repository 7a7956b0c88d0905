-- ===== src/Service/Interfaces.antt =====
-- escalation-proxy/app/investigation_service.py: the protocols `CallerPolicyStore` and
-- `InvestigationRegistry`, `InvestigationServiceConfig`, and the requests of
-- escalation-proxy/app/contracts.py. `W` is all that the methods read and change, clock and store.
use sre_agent_team.Base.{ℕ, Bool, String, Option}
use sre_agent_team.Base.Fallible.{Result}
use sre_agent_team.Base.Int.{ℤ}
use sre_agent_team.Policy.Json.{Fields}
use sre_agent_team.Policy.Store.{CallerPolicy, PolicyError}
use sre_agent_team.Registry.Record.{
  InvestigationRecord, RegistryError, ReservationResult, ReservationState,
}
use sre_agent_team.Registry.Admission.{ReservationRequest}

pub record PolicyOps (W : Type 0) : Type 0 where
  pub authorize : String → String → W → Result PolicyError CallerPolicy × W
  pub authorize_resource_group : String → String → W → Result PolicyError CallerPolicy × W

-- What a method of the registry raises: a `ValueError` (and an `IdempotencyConflictError`, which is one) as the
-- in-memory registry has them, or another exception, which the service does not catch, as the table
-- registry's `ResourceNotFoundError`, `RuntimeError` and the failures of the table service.
pub data Raised : Type 0 where
  value_error : RegistryError → Raised
  uncaught : Raised

pub record RegistryOps (W : Type 0) : Type 0 where
  pub find_by_idempotency_key : String → String → W → Result Raised (Option InvestigationRecord) × W
  pub reserve_investigation : ReservationRequest → W → Result Raised ReservationResult × W
  pub finalize_reservation : String → String → String → W → Result Raised (Unit {0}) × W
  pub release_reservation : String → String → W → Result Raised (Unit {0}) × W
  pub get_investigation : String → String → String → W → Result Raised InvestigationRecord × W
  pub record_status_poll : String → String → String → W → Result Raised (Unit {0}) × W
  pub record_summary_poll : String → String → String → W → Result Raised (Unit {0}) × W
  pub complete_investigation : String → String → ReservationState → W → Result Raised (Unit {0}) × W
  pub record_findings_metadata :
      String → String → Bool → String → Bool → W → Result Raised (Unit {0}) × W

pub record Config : Type 0 where
  pub max_description_size : ℕ
  pub max_context_size : ℕ
  pub max_workload_name_size : ℕ
  pub max_idempotency_key_size : ℕ
  pub max_status_wait_seconds : ℕ
  pub status_poll_interval_seconds : ℕ
  pub min_status_poll_interval_seconds : ℕ
  pub target_liaison_agent : String
  pub finalization_token : String
  pub require_finalization_token : Bool
  pub max_agent_messages : ℕ

-- `CreateInvestigationRequest`
pub record CreateRequest : Type 0 where
  pub description : String
  pub workload_name : String
  pub resource_group_id : String
  pub severity : String
  pub context : String

-- `GetInvestigationRequest`
pub record GetRequest : Type 0 where
  pub investigation_id : String
  pub wait_seconds : ℤ

-- `CallerIdentity`: the claims, and the two that it reads out as texts.
pub record Caller : Type 0 where
  pub claims : Fields
  pub oid : String
  pub appid : String
