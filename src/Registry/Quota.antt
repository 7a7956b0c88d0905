-- ===== src/Registry/Quota.antt =====
-- escalation-proxy/app/investigation_registry.py: the quota that `reserve_investigation` enforces.
use sre_agent_team.Base.{ℕ, suc, ◌+◌, ◌≤◌, ◌≡◌, true, false, String, none, some, [], ◌∷◌, arith}
use sre_agent_team.Base.Fallible.{ok}
use sre_agent_team.Base.Dict.{Dict, lookup, insert, update, lookup-insert, erase-insert}
use sre_agent_team.Registry.Record.{
  InvestigationRecord, Registry, ReservationResult, ReservationState, Settings, holds_quota,
}
use sre_agent_team.Registry.Reads.{active_count, as_count, counts_against, cleanup_expired}
use sre_agent_team.Registry.Lifecycle.{complete_investigation, set_terminal}
use sre_agent_team.Registry.Admission.{
  ReservationRequest, Readings, new_record, admit, reserve_clean, reserve_investigation,
  finalize_reservation, attach_thread, release_reservation,
}

-- The registry as `reserve_investigation` finds it after its cleanup.
abbrev pub cleaned : Settings → Readings → Registry → Registry
cleaned settings w s = (cleanup_expired settings.max_expiry_cleanup_batch_size w.cleanup_time s).1

active_count-insert :
    (k app : String) (clock : String → ℕ) (r : InvestigationRecord) (d : Dict InvestigationRecord)
    → lookup k d ≡ none
    → active_count app clock (insert k r d)
      ≡ active_count app clock d + as_count (counts_against app (clock k) r)
unfolding active_count lookup insert
active_count-insert k app clock r [] h = omega arith
active_count-insert k app clock r ((i, x) ∷ d) h =
    ground (arith, active_count-insert k app clock r d)

new_record-counts :
    (settings : Settings) (q : ReservationRequest) (w : Readings)
    → counts_against q.workload_identity_appid w.now (new_record settings q w) ≡ true
unfolding counts_against new_record
new_record-counts settings q w = ground arith

-- A call of `reserve_investigation` that makes a reservation, under a uuid that no record has, finds
-- fewer live reservations of the caller than its maximum, adds exactly one, and so leaves at most
-- the maximum.
pub reserve_within_quota :
    (settings : Settings) (q : ReservationRequest) (w : Readings) (s s' : Registry)
    (made : ReservationResult)
    → lookup w.investigation_uuid (cleaned settings w s).records ≡ none
    → reserve_investigation settings q w s ≡ (ok made, s')
    → made.created ≡ true
    → let count = active_count q.workload_identity_appid (λ _. w.now) in
      (count s'.records ≡ suc (count (cleaned settings w s).records))
      × (count s'.records ≤ q.maximum_investigations)
unfolding reserve_investigation reserve_clean admit
reserve_within_quota settings q w s s' made fresh e c = ground (
  arith,
  active_count-insert w.investigation_uuid q.workload_identity_appid (λ _. w.now)
      (new_record settings q w) (cleaned settings w s).records,
  new_record-counts settings q w,
)

-- Giving a fresh reservation back leaves the records that the reservation found: no slot is lost.
pub release_undoes_reserve :
    (settings : Settings) (q : ReservationRequest) (w : Readings) (s s' : Registry)
    (made : ReservationResult)
    → lookup w.investigation_uuid (cleaned settings w s).records ≡ none
    → reserve_investigation settings q w s ≡ (ok made, s')
    → made.created ≡ true
    → (release_reservation made.investigation_id q.caller_appid s').records
      ≡ (cleaned settings w s).records
unfolding reserve_investigation reserve_clean admit release_reservation new_record
release_undoes_reserve settings q w s s' made fresh e c = ground (
  arith,
  lookup-insert w.investigation_uuid w.investigation_uuid (new_record settings q w)
      (cleaned settings w s).records,
  erase-insert w.investigation_uuid (new_record settings q w) (cleaned settings w s).records,
)

active_count-update :
    (k app : String) (clock : String → ℕ) (f : InvestigationRecord → InvestigationRecord)
    {r : InvestigationRecord} (d : Dict InvestigationRecord)
    → lookup k d ≡ some r
    → active_count app clock (update k f d) + as_count (counts_against app (clock k) r)
      ≡ active_count app clock d + as_count (counts_against app (clock k) (f r))
unfolding active_count lookup update
active_count-update k app clock f [] h = cc
active_count-update k app clock f {r} ((i, x) ∷ d) h =
    ground (arith, active_count-update k app clock f {r = r} d)

-- Completing an investigation that holds a slot frees exactly that slot, whatever the clock reads.
pub complete_frees_slot :
    (settings : Settings) (id app : String) (terminal : ReservationState) (t : ℕ)
    (clock : String → ℕ) (s : Registry) (r : InvestigationRecord)
    → lookup id s.records ≡ some r
    → r.caller_appid ≡ app
    → counts_against r.workload_identity_appid (clock id) r ≡ true
    → holds_quota terminal ≡ false
    → let count = active_count r.workload_identity_appid clock in
      let (result, s') = complete_investigation settings id app terminal t s in
      (result ≡ ok tt) × (count s.records ≡ suc (count s'.records))
unfolding complete_investigation set_terminal counts_against
complete_frees_slot settings id app terminal t clock s r found owner counted ends = ground (
  arith,
  active_count-update id r.workload_identity_appid clock (set_terminal settings terminal t)
      s.records found,
)

-- `finalize_reservation` does not look at the state: finalizing an investigation that no longer
-- holds a slot and has not expired makes it active again and takes a slot, with no test of the
-- caller's maximum.
pub finalize_takes_slot :
    (id app thread : String) (t : ℕ) (clock : String → ℕ) (s : Registry) (r : InvestigationRecord)
    → lookup id s.records ≡ some r
    → r.caller_appid ≡ app
    → holds_quota r.reservation_state ≡ false
    → clock id ≤ r.expires_at
    → let count = active_count r.workload_identity_appid clock in
      let (result, s') = finalize_reservation id app thread t s in
      (result ≡ ok tt) × (count s'.records ≡ suc (count s.records))
unfolding finalize_reservation counts_against
finalize_takes_slot id app thread t clock s r found owner ended live = ground (
  arith,
  active_count-update id r.workload_identity_appid clock (attach_thread thread t) s.records found,
)
