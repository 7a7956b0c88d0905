-- ===== src/App/Completing.antt =====
-- escalation-proxy/app/main.py: what completing a record does to the others, in the in-memory registry.
use sre_agent_team.Base.{
  ℕ, ◌≡◌, false, ◌&&◌, String, some, ◌==◌, if◌then◌else◌, arith, Option-cases, inl, inr, ==_refl,
}
use sre_agent_team.Base.Dict.{lookup, lookup-update}
use sre_agent_team.Registry.Record.{
  InvestigationRecord, Registry, Settings, ReservationState, holds_quota,
}
use sre_agent_team.Registry.Lifecycle.{complete_investigation, set_terminal}
use sre_agent_team.App.Reconciliation.{terminal_of}

-- The caller's record is registered under the id.
abbrev pub Present : String → String → Registry → Type 0
Present id app s =
    (r : InvestigationRecord) × (lookup id s.records ≡ some r) × (r.caller_appid ≡ app)

-- The record under the id holds no slot.
abbrev pub Freed : String → Registry → Type 0
Freed id s =
    (r : InvestigationRecord) × (lookup id s.records ≡ some r)
    × (holds_quota r.reservation_state ≡ false)

set_terminal_lem :
    (settings : Settings) (state : ReservationState) (now : ℕ) (r : InvestigationRecord)
    → holds_quota state ≡ false
    → let x = set_terminal settings state now r in
      (x.caller_appid ≡ r.caller_appid) × (holds_quota x.reservation_state ≡ false)
unfolding set_terminal
set_terminal_lem settings state now r terminal = ground arith

module _ (settings : Settings) (state : ReservationState) (now : ℕ) (s : Registry) where
  completed_record :
      (id id' app' : String) (r : InvestigationRecord)
      → lookup id s.records ≡ some r
      → lookup id (complete_investigation settings id' app' state now s).1.records
        ≡ some
            (if id' == id && r.caller_appid == app' then set_terminal settings state now r else r)
  unfolding complete_investigation
  completed_record id id' app' r found = elim (Option-cases (lookup id' s.records)) [
    | inl gone ↦ ground arith
    | inr (x, here) ↦
        ground (arith, lookup-update id' id (set_terminal settings state now) s.records)
  ]

module _ (settings : Settings) (state : ReservationState) (now : ℕ) (s : Registry)
    (terminal : holds_quota state ≡ false) where
  pub complete-Present :
      (id app id' app' : String)
      → Present id app s
      → Present id app (complete_investigation settings id' app' state now s).1
  complete-Present id app id' app' (r, found, mine) = (
    if id' == id && r.caller_appid == app' then set_terminal settings state now r else r,
    completed_record settings state now s id id' app' r found,
    ground (arith, set_terminal_lem settings state now r terminal),
  )

  pub complete-Freed :
      (id id' app' : String)
      → Freed id s
      → Freed id (complete_investigation settings id' app' state now s).1
  complete-Freed id id' app' (r, found, freed) = (
    if id' == id && r.caller_appid == app' then set_terminal settings state now r else r,
    completed_record settings state now s id id' app' r found,
    ground (arith, set_terminal_lem settings state now r terminal),
  )

  pub complete_frees :
      (id app : String)
      → Present id app s
      → Freed id (complete_investigation settings id app state now s).1
  complete_frees id app (r, found, mine) = (
    if id == id && r.caller_appid == app then set_terminal settings state now r else r,
    completed_record settings state now s id id app r found,
    ground (arith, set_terminal_lem settings state now r terminal, ==_refl id, ==_refl app),
  )

pub terminal_of-ends :
    (status : String) (state : ReservationState)
    → terminal_of status ≡ some state
    → holds_quota state ≡ false
unfolding terminal_of
terminal_of-ends status state h = ground arith
