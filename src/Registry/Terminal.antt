-- ===== src/Registry/Terminal.antt =====
-- escalation-proxy/app/investigation_registry.py: a terminal investigation stays terminal.
use sre_agent_team.Base.{
  ℕ, ◌+◌, ◌≡◌, refl, ◌≢◌, ◌⊎◌, inl, inr, Bool, true, false, String, Option, none, some, List, [],
  ◌∷◌, arith, take,
}
use mathlib.Core.Option
use sre_agent_team.Base.Fallible.{ok, Result-cases}
use sre_agent_team.Base.Dict.{
  Dict, Distinct, lookup, erase, update, lookup-insert, lookup-update, lookup-erase, erase-Distinct,
}
use sre_agent_team.Registry.Record.{
  ReservationState, InvestigationRecord, Registry, Settings, holds_quota,
}
use sre_agent_team.Registry.Reads.{get_investigation, cleanup_expired, erase_all, expired_ids}
use sre_agent_team.Registry.Admission.{
  ReservationRequest, Readings, reserve_investigation, reserve_clean, admit, finalize_reservation,
  release_reservation, new_record, attach_thread, create_investigation,
}
use sre_agent_team.Registry.Lifecycle.{
  complete_investigation, set_terminal, record_findings_metadata, set_findings, stamp_findings,
  record_status_poll, admit_status_poll, count_status_poll, record_summary_poll, admit_summary_poll,
  count_summary_poll,
}
use sre_agent_team.Registry.Sweeps.{
  claim_reconcilable_investigations, release_stale_uncertain_reservations, sweep, lease,
  fail_uncertain, skips_claim, skips_release,
}
use sre_agent_team.Registry.Invariant.{
  Call, reserves, creates, finalizes, releases, completes, records_findings, gets, polls_status,
  polls_summary, cleans, claims, releases_stale, perform, IsValid,
}
use sre_agent_team.Registry.Sweeping.{lookup-sweep}

-- What the registry knows of the state of an investigation.
abbrev pub state_of : String → Registry → Option ReservationState
state_of id s = Option.map (λ r. r.reservation_state) (lookup id s.records)

-- The state is as it was, or the record is gone.
abbrev Keeps : String → Registry → Registry → Type 0
Keeps id s s' = (state_of id s' ≡ state_of id s) ⊎ (state_of id s' ≡ none)

-- A call that does not make the investigation active: none that finalizes it, none that draws its id
-- anew, and no `create_investigation` that is answered with its id, which it then finalizes.
abbrev pub Spares : Settings → Registry → String → Call → Type 0
Spares c s id (reserves q w) = w.investigation_uuid ≢ id
Spares c s id (creates q thread w t) =
    (w.investigation_uuid ≢ id) × ((create_investigation c q thread w t s).0 ≢ ok id)
Spares c s id (finalizes id' app thread t) = id' ≢ id
Spares c s id _ = Unit

module _ (c : Settings) (id : String) (r : InvestigationRecord) where
  erase-Keeps :
      (k : String) (s : Registry)
      → IsValid c s
      → Keeps id s (record s { records = erase k s.records })
  erase-Keeps k s v = ground (arith, lookup-erase k id s.records v.distinct)

  update-Keeps :
      (k : String) (f : InvestigationRecord → InvestigationRecord) (s : Registry)
      → lookup id s.records ≡ some r
      → (f r).reservation_state ≡ r.reservation_state
      → Keeps id s (record s { records = update k f s.records })
  update-Keeps k f s found same = ground (arith, lookup-update k id f s.records)

  erase_all-Keeps :
      (ks : List String) (d : Dict InvestigationRecord)
      → Distinct d
      → (lookup id (erase_all ks d) ≡ lookup id d) ⊎ (lookup id (erase_all ks d) ≡ none)
  unfolding erase_all
  erase_all-Keeps [] d u = inl refl
  erase_all-Keeps (k ∷ ks) d u =
      ground (arith, erase_all-Keeps ks (erase k d) (erase-Distinct k d u), lookup-erase k id d u)

  cleanup-Keeps :
      (limit now : ℕ) (s : Registry) → IsValid c s → Keeps id s (cleanup_expired limit now s).1
  unfolding cleanup_expired
  cleanup-Keeps limit now s v =
      ground (arith, erase_all-Keeps (take limit (expired_ids now s.records)) s.records v.distinct)

  admit-Keeps :
      (q : ReservationRequest) (w : Readings) (s : Registry)
      → w.investigation_uuid ≢ id
      → Keeps id s (admit c q w s).1
  unfolding admit
  admit-Keeps q w s other =
      ground (arith, lookup-insert w.investigation_uuid id (new_record c q w) s.records)

  reserve-Keeps :
      (q : ReservationRequest) (w : Readings) (s : Registry)
      → w.investigation_uuid ≢ id
      → IsValid c s
      → Keeps id s (reserve_investigation c q w s).1
  unfolding reserve_investigation reserve_clean
  reserve-Keeps q w s other v = ground (
    arith,
    cleanup-Keeps c.max_expiry_cleanup_batch_size w.cleanup_time s v,
    admit-Keeps q w (cleanup_expired c.max_expiry_cleanup_batch_size w.cleanup_time s).1 other,
  )

  finalize-Keeps :
      (k app thread : String) (t : ℕ) (s s' : Registry)
      → Keeps id s s'
      → (k ≢ id) ⊎ ((finalize_reservation k app thread t s').0 ≢ ok tt)
      → Keeps id s (finalize_reservation k app thread t s').1
  unfolding finalize_reservation
  finalize-Keeps k app thread t s s' kept apart =
      ground (arith, lookup-update k id (attach_thread thread t) s'.records)

  create-Keeps :
      (q : ReservationRequest) (thread : String) (w : Readings) (t : ℕ) (s : Registry)
      → Spares c s id (creates q thread w t)
      → IsValid c s
      → Keeps id s (create_investigation c q thread w t s).1
  unfolding create_investigation
  create-Keeps q thread w t s (drawn, answered) v =
      let quota_request = record q {
        maximum_investigations = c.max_investigations_per_workload;
        policy_display_name = "";
        policy_enabled = true;
        policy_maximum_severity = "";
      } in
      let kept = reserve-Keeps quota_request w s drawn v in
      let reserved = reserve_investigation c quota_request w s in
      elim (Result-cases reserved.0) [
        | inr e ↦ ground arith
        | inl (made, h) ↦
            let k = made.investigation_id in
            let finalized = finalize_reservation k q.caller_appid thread t reserved.1 in
            let step = finalize-Keeps k q.caller_appid thread t s reserved.1 kept in
            elim (Result-cases finalized.0) [
              | inr (e, h') ↦ ground (arith, step (inr (λ same. cc)))
              | inl (u, h') ↦ ground (arith, step (inl (λ same. answered (ground arith))))
            ]
      ]

  sweep-Keeps :
      (skips : InvestigationRecord → Bool) (change : InvestigationRecord → InvestigationRecord)
      (room : ℕ) (s : Registry)
      → lookup id s.records ≡ some r
      → (skips r ≡ true) ⊎ ((change r).reservation_state ≡ r.reservation_state)
      → Keeps id s (record s { records = (sweep skips change room s.records).1 })
  sweep-Keeps skips change room s found same =
      ground (arith, lookup-sweep skips change room id r s.records found)

  -- In a valid registry, an investigation that is completed or failed keeps that state, or is dropped,
  -- through every call but one that finalizes it, one that draws its id anew, and a
  -- `create_investigation` that is answered with its id.
  pub terminal_is_final :
      (call : Call) (s : Registry)
      → IsValid c s
      → lookup id s.records ≡ some r
      → holds_quota r.reservation_state ≡ false
      → Spares c s id call
      → Keeps id s (perform c call s)
  unfolding perform finalize_reservation release_reservation complete_investigation set_terminal
      record_findings_metadata set_findings stamp_findings get_investigation record_status_poll
      admit_status_poll record_summary_poll admit_summary_poll claim_reconcilable_investigations
      release_stale_uncertain_reservations skips_release
  terminal_is_final (reserves q w) s v found over spares = reserve-Keeps q w s spares v
  terminal_is_final (creates q thread w t) s v found over spares =
      create-Keeps q thread w t s spares v
  terminal_is_final (finalizes k app thread t) s v found over spares =
      ground (arith, lookup-update k id (attach_thread thread t) s.records)
  terminal_is_final (releases k app) s v found over spares = ground (arith, erase-Keeps k s v)
  terminal_is_final (completes k app terminal t) s v found over spares =
      ground (arith, update-Keeps k (set_terminal c terminal t) s found (ground arith))
  terminal_is_final (records_findings k app valid strategy redacted t) s v found over spares =
      ground
        (arith, update-Keeps k (set_findings c valid strategy redacted t) s found (ground arith))
  terminal_is_final (gets k oid app t) s v found over spares = ground (arith, erase-Keeps k s v)
  terminal_is_final (polls_status k oid app t now) s v found over spares =
      ground (arith, erase-Keeps k s v, update-Keeps k (count_status_poll now) s found refl)
  terminal_is_final (polls_summary k oid app t now) s v found over spares =
      ground (arith, erase-Keeps k s v, update-Keeps k (count_summary_poll now) s found refl)
  terminal_is_final (cleans limit now) s v found over spares = cleanup-Keeps limit now s v
  terminal_is_final (claims limit owner seconds now) s v found over spares =
      sweep-Keeps (skips_claim now) (lease owner (now + seconds)) limit s found (inr refl)
  terminal_is_final (releases_stale limit grace now) s v found over spares =
      sweep-Keeps (skips_release now grace) (fail_uncertain c now) limit s found
        (inl (ground arith))
