-- ===== src/Registry/Invariant.antt =====
-- escalation-proxy/app/investigation_registry.py: calls of the methods in any order, and what holds
-- after every sequence of them.
use sre_agent_team.Base.{ℕ, zero, suc, ◌≤◌, ◌≡◌, Bool, String, some, List, [], ◌∷◌, arith}
use sre_agent_team.Base.Dict.{Dict, Distinct, lookup, insert, erase, update}
use sre_agent_team.Registry.Record.{ReservationState, InvestigationRecord, Registry, Settings}
use sre_agent_team.Registry.Reads.{get_investigation, cleanup_expired, erase_all}
use sre_agent_team.Registry.Admission.{
  ReservationRequest, Readings, reserve_investigation, finalize_reservation, release_reservation,
  create_investigation,
}
use sre_agent_team.Registry.Lifecycle.{
  complete_investigation, record_findings_metadata, record_status_poll, record_summary_poll,
}
use sre_agent_team.Registry.Sweeps.{
  claim_reconcilable_investigations, release_stale_uncertain_reservations, sweep,
}

-- A call of a method that may change the registry, with its arguments and clock readings.
pub data Call : Type 0 where
  reserves : ReservationRequest → Readings → Call
  creates : ReservationRequest → String → Readings → ℕ → Call
  finalizes : String → String → String → ℕ → Call
  releases : String → String → Call
  completes : String → String → ReservationState → ℕ → Call
  records_findings : String → String → Bool → String → Bool → ℕ → Call
  gets : String → String → String → ℕ → Call
  polls_status : String → String → String → ℕ → ℕ → Call
  polls_summary : String → String → String → ℕ → ℕ → Call
  cleans : ℕ → ℕ → Call
  claims : ℕ → String → ℕ → ℕ → Call
  releases_stale : ℕ → ℕ → ℕ → Call

-- The registry after a call, whether it returned or raised.
unfoldable pub perform : Settings → Call → Registry → Registry
perform c (reserves q w) s = (reserve_investigation c q w s).1
perform c (creates q thread w t) s = (create_investigation c q thread w t s).1
perform c (finalizes id app thread t) s = (finalize_reservation id app thread t s).1
perform c (releases id app) s = release_reservation id app s
perform c (completes id app terminal t) s = (complete_investigation c id app terminal t s).1
perform c (records_findings id app valid strategy redacted t) s =
    (record_findings_metadata c id app valid strategy redacted t s).1
perform c (gets id oid app t) s = (get_investigation id oid app t s).1
perform c (polls_status id oid app t now) s = (record_status_poll c id oid app t now s).1
perform c (polls_summary id oid app t now) s = (record_summary_poll c id oid app t now s).1
perform c (cleans limit now) s = (cleanup_expired limit now s).1
perform c (claims limit owner seconds now) s =
    (claim_reconcilable_investigations limit owner seconds now s).1
perform c (releases_stale limit grace now) s =
    (release_stale_uncertain_reservations c limit grace now s).1

unfoldable pub perform_all : Settings → List Call → Registry → Registry
perform_all c [] s = s
perform_all c (call ∷ calls) s = perform_all c calls (perform c call s)

-- A record stands under its id, with its polls within the maxima, and expires after its creation.
abbrev pub IsSound : Settings → String → InvestigationRecord → Type 0
IsSound c k r =
    (k ≡ r.investigation_id)
    × (r.status_poll_count ≤ c.max_status_polls_per_investigation)
    × (r.summary_poll_count ≤ c.max_summary_polls_per_investigation)
    × (r.created_at ≤ r.expires_at)

abbrev pub AllSound : Settings → Dict InvestigationRecord → Type 0
AllSound c [] = Unit
AllSound c ((k, r) ∷ d) = IsSound c k r × AllSound c d

pub record IsValid (c : Settings) (s : Registry) : Type 0 where
  pub distinct : Distinct s.records
  pub sound : AllSound c s.records

module _ (c : Settings) where
  pub lookup-AllSound :
      (k : String) (r : InvestigationRecord) (d : Dict InvestigationRecord)
      → AllSound c d
      → lookup k d ≡ some r
      → IsSound c k r
  unfolding lookup
  lookup-AllSound k r [] h found = cc
  lookup-AllSound k r ((i, x) ∷ d) h found = ground (arith, lookup-AllSound k r d h.1)

  pub insert-AllSound :
      (k : String) (r : InvestigationRecord) (d : Dict InvestigationRecord)
      → IsSound c k r
      → AllSound c d
      → AllSound c (insert k r d)
  unfolding insert
  insert-AllSound k r [] new h = (new, tt)
  insert-AllSound k r ((i, x) ∷ d) new h = ground (arith, insert-AllSound k r d new h.1)

  pub update-AllSound :
      (k : String) (f : InvestigationRecord → InvestigationRecord) (r : InvestigationRecord)
      (d : Dict InvestigationRecord)
      → lookup k d ≡ some r
      → IsSound c k (f r)
      → AllSound c d
      → AllSound c (update k f d)
  unfolding update lookup
  update-AllSound k f r [] found new h = tt
  update-AllSound k f r ((i, x) ∷ d) found new h = ground (arith, update-AllSound k f r d)

  pub erase-AllSound :
      (k : String) (d : Dict InvestigationRecord) → AllSound c d → AllSound c (erase k d)
  unfolding erase
  erase-AllSound k [] h = tt
  erase-AllSound k ((i, x) ∷ d) h = ground (arith, erase-AllSound k d h.1)

  pub erase_all-AllSound :
      (ks : List String) (d : Dict InvestigationRecord) → AllSound c d → AllSound c (erase_all ks d)
  unfolding erase_all
  erase_all-AllSound [] d h = h
  erase_all-AllSound (k ∷ ks) d h = erase_all-AllSound ks (erase k d) (erase-AllSound k d h)

  pub sweep-AllSound :
      (skips : InvestigationRecord → Bool) (change : InvestigationRecord → InvestigationRecord)
      (room : ℕ) (d : Dict InvestigationRecord)
      → ((k : String) (r : InvestigationRecord) → IsSound c k r → IsSound c k (change r))
      → AllSound c d
      → AllSound c (sweep skips change room d).1
  unfolding sweep
  sweep-AllSound skips change zero d keep h = h
  sweep-AllSound skips change (suc room) [] keep h = tt
  sweep-AllSound skips change (suc room) ((i, x) ∷ d) keep h = ground (
    arith,
    sweep-AllSound skips change (suc room) d keep h.1,
    sweep-AllSound skips change room d keep h.1,
    keep i x h.0,
  )
