-- ===== src/Table/Completion.antt =====
-- escalation-proxy/app/investigation_registry.py: what `complete_investigation` does to the table.
use sre_agent_team.Base.{
  ℕ, ◌-◌, ◌≡◌, refl, ◌∙◌, true, false, not, String, Option, none, some, if◌then◌else◌, arith,
  ==_refl,
}
use sre_agent_team.Base.Fallible.{ok, err}
use sre_agent_team.Registry.Record.{InvestigationRecord, Settings, ReservationState, holds_quota}
use sre_agent_team.Table.Entity.{Entity, not_found, to_entity}
use sre_agent_team.Table.Client.{TableClient, again_on_conflict}
use sre_agent_team.Table.Counter.{quota_counter_key, count_in, with_count}
use sre_agent_team.Table.Lifecycle.{
  submit_completion, complete_entity, complete_attempt, complete_investigation,
}
use sre_agent_team.Table.Laws.{body, bodies, IsAlone}
use sre_agent_team.Table.RoundTrip.{stored}
use sre_agent_team.Table.Stored.{
  caller-stored, expires-stored, in_use-stored, ended, terminal_entity-stored,
}
use sre_agent_team.Table.Represents.{IsId, Changes}
use sre_agent_team.Table.Effects.{counter_lem, completion_lem}
use sre_agent_team.Table.Rounds.{tries-ok, again-ok}

module _ {T : Type 0} (client : TableClient T) (rows : T → String → String → Option Entity)
    (alone : IsAlone client rows) (settings : Settings) (id pk : String) (t : T) where
  complete_round :
      (terminal_state : ReservationState) (now : ℕ) (r : InvestigationRecord) (tag : Option String)
      → r.caller_appid ≡ pk
      → rows t pk id ≡ some (stored tag r)
      → complete_attempt client settings id pk terminal_state now t ≡ (
          if not (holds_quota r.reservation_state)
          then (ok (some tt), t)
          else complete_entity client settings pk terminal_state now (stored tag r) t)
  unfolding complete_attempt
  complete_round terminal_state now r tag caller here = ground (
    arith,
    alone.reads pk id t,
    caller-stored tag r pk,
    in_use-stored false tag r r.reservation_state refl,
    ==_refl pk,
  )

  pub complete_missing :
      (terminal_state : ReservationState) (now : ℕ)
      → rows t pk id ≡ none
      → complete_attempt client settings id pk terminal_state now t ≡ (err not_found, t)
  unfolding complete_attempt
  complete_missing terminal_state now gone = ground (arith, alone.reads pk id t)

  complete_ends :
      (terminal_state : ReservationState) (now n : ℕ) (c : Entity) (r : InvestigationRecord)
      (tag : Option String)
      → rows t pk quota_counter_key ≡ some c
      → count_in c ≡ ok n
      → complete_entity client settings pk terminal_state now (stored tag r) t
        ≡ again_on_conflict
            (submit_completion client n c
              (stored tag (ended settings terminal_state now r))
              (stored tag r))
            t
  unfolding complete_entity
  complete_ends terminal_state now n c r tag counter counts = ground (
    arith,
    counter_lem client rows alone pk t c counter,
    expires-stored tag r,
    terminal_entity-stored settings terminal_state now tag r,
  )

  -- An investigation that holds a slot is ended, and its slot given back, by one transaction.
  pub completion_ends :
      (terminal_state : ReservationState) (clock : ℕ → ℕ) (n : ℕ) (c : Entity)
      (r : InvestigationRecord) (tag : Option String)
      → IsId id
      → r.investigation_id ≡ id
      → r.caller_appid ≡ pk
      → r.workload_identity_appid ≡ pk
      → rows t pk id ≡ some (stored tag r)
      → holds_quota r.reservation_state ≡ true
      → rows t pk quota_counter_key ≡ some c
      → count_in c ≡ ok n
      → let (x, t') = complete_investigation client settings id pk terminal_state clock t in
        (x ≡ ok tt)
        × Changes rows t t' pk id (some (to_entity (ended settings terminal_state (clock 0) r)))
        × (bodies rows t' pk quota_counter_key ≡ some (body (with_count (n - 1) c)))
  unfolding complete_investigation to_entity
  completion_ends terminal_state clock n c r tag is_id same_id caller mine here holds counter
        counts =
      let x = stored tag (ended settings terminal_state (clock 0) r) in
      let m = submit_completion client n c x (stored tag r) in
      let (answered, ch, freed) =
        completion_lem client rows alone pk id n c x (stored tag r) t is_id here counter mine
          same_id in
      let round = complete_round terminal_state (clock 0) r tag caller here in
      let ends = complete_ends terminal_state (clock 0) n c r tag counter counts in
      rw
        (tries-ok (λ (k : ℕ). complete_attempt client settings id pk terminal_state (clock k)) 2 0 t
          (m t).1 tt (round ∙ ground arith ∙ ends ∙ again-ok m t tt answered))
        (refl, ch, freed)

  -- One that holds none is left.
  pub completion_leaves :
      (terminal_state : ReservationState) (clock : ℕ → ℕ) (r : InvestigationRecord)
      (tag : Option String)
      → r.caller_appid ≡ pk
      → rows t pk id ≡ some (stored tag r)
      → holds_quota r.reservation_state ≡ false
      → complete_investigation client settings id pk terminal_state clock t ≡ (ok tt, t)
  unfolding complete_investigation
  completion_leaves terminal_state clock r tag caller here ended_before =
      tries-ok (λ (k : ℕ). complete_attempt client settings id pk terminal_state (clock k)) 2 0 t t
        tt (complete_round terminal_state (clock 0) r tag caller here ∙ ground arith)
