-- ===== src/Registry/Traces.antt =====
-- escalation-proxy/app/investigation_registry.py: sequences of calls of the methods.
use sre_agent_team.Base.{ℕ, String, List, [], ◌∷◌, arith}
use sre_agent_team.Registry.Record.{Registry, Settings, empty}
use sre_agent_team.Registry.Admission.{
  ReservationRequest, Readings, release_reservation, create_investigation,
}
use sre_agent_team.Registry.Sweeps.{
  claim_reconcilable_investigations, release_stale_uncertain_reservations,
}
use sre_agent_team.Registry.Sweeping.{sweep-Distinct}
use sre_agent_team.Registry.Invariant.{
  Call, reserves, creates, finalizes, releases, completes, records_findings, gets, polls_status,
  polls_summary, cleans, claims, releases_stale, perform, perform_all, IsValid, sweep-AllSound,
}
use sre_agent_team.Registry.Preservation.{
  cleanup-IsValid, reserve-IsValid, finalize-IsValid, complete-IsValid, findings-IsValid,
  get-IsValid, status_poll-IsValid, summary_poll-IsValid, drop-IsValid,
}

module _ (c : Settings) where
  release-IsValid :
      (id app : String) (s : Registry) → IsValid c s → IsValid c (release_reservation id app s)
  unfolding release_reservation
  release-IsValid id app s v = ground (arith, drop-IsValid c id s v)

  create-IsValid :
      (q : ReservationRequest) (thread : String) (w : Readings) (t : ℕ) (s : Registry)
      → IsValid c s
      → IsValid c (create_investigation c q thread w t s).1
  unfolding create_investigation
  create-IsValid q thread w t s v = grind (arith, reserve-IsValid c, finalize-IsValid c)

  claim-IsValid :
      (limit : ℕ) (owner : String) (seconds now : ℕ) (s : Registry)
      → IsValid c s
      → IsValid c (claim_reconcilable_investigations limit owner seconds now s).1
  unfolding claim_reconcilable_investigations
  claim-IsValid limit owner seconds now s v = record {
    distinct = sweep-Distinct _ _ limit s.records v.distinct;
    sound = sweep-AllSound c _ _ limit s.records (λ k r h. h) v.sound;
  }

  stale-IsValid :
      (limit grace now : ℕ) (s : Registry)
      → IsValid c s
      → IsValid c (release_stale_uncertain_reservations c limit grace now s).1
  unfolding release_stale_uncertain_reservations
  stale-IsValid limit grace now s v = record {
    distinct = sweep-Distinct _ _ limit s.records v.distinct;
    sound = sweep-AllSound c _ _ limit s.records (λ k r h. ground arith) v.sound;
  }

  perform-IsValid : (call : Call) (s : Registry) → IsValid c s → IsValid c (perform c call s)
  unfolding perform
  perform-IsValid (reserves q w) s v = reserve-IsValid c q w s v
  perform-IsValid (creates q thread w t) s v = create-IsValid q thread w t s v
  perform-IsValid (finalizes id app thread t) s v = finalize-IsValid c id app thread t s v
  perform-IsValid (releases id app) s v = release-IsValid id app s v
  perform-IsValid (completes id app terminal t) s v = complete-IsValid c id app terminal t s v
  perform-IsValid (records_findings id app valid strategy redacted t) s v =
      findings-IsValid c id app valid strategy redacted t s v
  perform-IsValid (gets id oid app t) s v = get-IsValid c id oid app t s v
  perform-IsValid (polls_status id oid app t now) s v = status_poll-IsValid c id oid app t now s v
  perform-IsValid (polls_summary id oid app t now) s v = summary_poll-IsValid c id oid app t now s v
  perform-IsValid (cleans limit now) s v = cleanup-IsValid c limit now s v
  perform-IsValid (claims limit owner seconds now) s v = claim-IsValid limit owner seconds now s v
  perform-IsValid (releases_stale limit grace now) s v = stale-IsValid limit grace now s v

  perform_all-IsValid :
      (calls : List Call) (s : Registry) → IsValid c s → IsValid c (perform_all c calls s)
  unfolding perform_all
  perform_all-IsValid [] s v = v
  perform_all-IsValid (call ∷ calls) s v =
      perform_all-IsValid calls (perform c call s) (perform-IsValid call s v)

-- After any sequence of calls that begins with an empty registry, returned or raised, no id stands
-- twice, every record stands under its own id, its status and summary polls are within their maxima,
-- and it expires no earlier than it was created.
pub every_history_IsValid :
    (c : Settings) (calls : List Call) → IsValid c (perform_all c calls empty)
every_history_IsValid c calls =
    perform_all-IsValid c calls empty (record { distinct = tt; sound = tt })
