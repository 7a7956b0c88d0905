-- ===== src/Table/RoundTrip.antt =====
-- escalation-proxy/app/investigation_registry.py: what `_from_entity` reads is what `_to_entity` wrote.
use sre_agent_team.Base.{String, Option, ◌≡◌, refl, string_discrete}
use sre_agent_team.Base.Fallible.{ok}
use sre_agent_team.Base.Dict.{lookup}
use sre_agent_team.Registry.Record.{
  InvestigationRecord, ReservationState, reserved, active, completed, failed,
}
use sre_agent_team.Table.Entity.{
  Entity, state_text, state_of_text, text_at, number_at, text_or, number_or, flag_or, state_at,
  to_entity, from_entity,
}

pub state_of_text-state_text : (s : ReservationState) → state_of_text (state_text s) ≡ ok s
unfolding state_of_text string_discrete
state_of_text-state_text reserved = refl
state_of_text-state_text active = refl
state_of_text-state_text completed = refl
state_of_text-state_text failed = refl

-- The entity of a record, under the ETag that the service gave it.
abbrev pub stored : Option String → InvestigationRecord → Entity
stored tag r = record (to_entity r) { etag = tag }

-- Reading back the entity that was written for a record gives that record, field by field, whatever
-- ETag the service gave it.
pub from_entity-stored :
    (fresh : String) (tag : Option String) (r : InvestigationRecord)
    → from_entity fresh (stored tag r) ≡ ok r
unfolding from_entity to_entity text_at number_at text_or number_or flag_or state_at lookup
    string_discrete
from_entity-stored fresh tag r = rw (state_of_text-state_text r.reservation_state) refl
