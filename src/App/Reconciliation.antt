-- ===== src/App/Reconciliation.antt =====
-- escalation-proxy/app/main.py: a round of `_run_terminal_reconciliation`, and one of `_run_expiry_cleanup`. The events
-- and the sleep after a round are left out, as is the cancellation of the tasks.
use sre_agent_team.Base.{ℕ, String, Option, none, some, List, [], ◌∷◌, ◌==◌, if◌then◌else◌}
use sre_agent_team.Base.Fallible.{Result, ok, err}
use sre_agent_team.Registry.Record.{InvestigationRecord, ReservationState, completed, failed}

-- What a round calls; `E` is what the calls raise, `W` all that they change. `fetch_status` is
-- `_fetch_investigation_status_once`.
pub record SweepOps (E W : Type 0) : Type 0 where
  pub release_stale_uncertain_reservations : W → Result E (List InvestigationRecord) × W
  pub claim_reconcilable_investigations : W → Result E (List InvestigationRecord) × W
  pub fetch_status : InvestigationRecord → W → Result E String × W
  pub complete_investigation : String → String → ReservationState → W → Result E (Unit {0}) × W
  pub cleanup_expired : W → Result E ℕ × W

-- `status in {"completed", "failed"}`
unfoldable pub terminal_of : String → Option ReservationState
terminal_of status =
    if status == "completed"
    then some completed
    else if status == "failed"
    then some failed
    else none

module _ {E W : Type 0} (ops : SweepOps E W) where
  -- The body of the loop over the claimed records; what a call raises ends the record's turn alone.
  unfoldable pub reconcile_record : InvestigationRecord → W → W
  reconcile_record r w =
      let (fetched, w') = ops.fetch_status r w in
      elim fetched [
        | err _ ↦ w'
        | ok status ↦ elim (terminal_of status) [
          | none ↦ w'
          | some state ↦ (ops.complete_investigation r.investigation_id r.caller_appid state w').1
        ]
      ]

  unfoldable pub reconcile_each : List InvestigationRecord → W → W
  reconcile_each [] w = w
  reconcile_each (r ∷ rs) w = reconcile_each rs (reconcile_record r w)

  unfoldable pub reconcile : W → W
  reconcile w =
      let (released, w1) = ops.release_stale_uncertain_reservations w in
      elim released [
        | err _ ↦ w1
        | ok _ ↦
            let (claimed, w2) = ops.claim_reconcilable_investigations w1 in
            elim claimed [ err _ ↦ w2 | ok records ↦ reconcile_each records w2 ]
      ]

  unfoldable pub clean_up : W → W
  clean_up w = (ops.cleanup_expired w).1
