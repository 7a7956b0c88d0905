-- ===== src/Table/Recount.antt =====
-- escalation-proxy/app/investigation_registry.py: what `_reconcile_quota_counter` counts.
use sre_agent_team.Base.{
  ℕ, ◌≡◌, refl, true, ◌&&◌, String, Option, [], ◌∷◌, leb, arith, string_discrete,
}
use sre_agent_team.Base.Fallible.{ok}
use sre_agent_team.Base.Dict.{lookup}
use sre_agent_team.Registry.Record.{InvestigationRecord, holds_quota}
use sre_agent_team.Registry.Admission.{ReservationRequest}
use sre_agent_team.Table.Entity.{number_or, to_entity}
use sre_agent_team.Table.Counter.{counts_entity, sum_active}
use sre_agent_team.Table.Admission.{index_entity}
use sre_agent_team.Table.RoundTrip.{stored}
use sre_agent_team.Table.Stored.{expires-stored, in_use-stored}
use sre_agent_team.Table.Represents.{IsId}
use sre_agent_team.Table.Effects.{not_counter}
use sre_agent_team.Table.Keys.{index-not_counter}

record_counted :
    (now : ℕ) (tag : Option String) (r : InvestigationRecord)
    → IsId r.investigation_id
    → counts_entity now (stored tag r)
      ≡ ok (leb now r.expires_at && holds_quota r.reservation_state)
unfolding counts_entity to_entity
record_counted now tag r is_id = ground (
  arith,
  not_counter r.investigation_id is_id,
  expires-stored tag r,
  in_use-stored true tag r r.reservation_state refl,
)

index_counted :
    (digest : String → String) (now : ℕ) (q : ReservationRequest) (r : InvestigationRecord)
    → counts_entity now (index_entity digest q r) ≡ ok (leb now r.expires_at)
unfolding counts_entity number_or lookup string_discrete
index_counted digest now q r = ground (arith, index-not_counter digest q.idempotency_key)

-- The two rows that a reservation with an idempotency key stores are counted as two slots when its
-- caller's counter is recounted, as long as the record has not expired and holds its slot.
pub keyed_reservation_counts_twice :
    (digest : String → String) (now : ℕ) (tag : Option String) (q : ReservationRequest)
    (r : InvestigationRecord)
    → IsId r.investigation_id
    → leb now r.expires_at ≡ true
    → holds_quota r.reservation_state ≡ true
    → sum_active now (stored tag r ∷ index_entity digest q r ∷ []) ≡ ok 2
unfolding sum_active
keyed_reservation_counts_twice digest now tag q r is_id live holds =
    ground (arith, record_counted now tag r is_id, index_counted digest now q r)
