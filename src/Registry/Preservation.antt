-- ===== src/Registry/Preservation.antt =====
-- escalation-proxy/app/investigation_registry.py: every call keeps the registry well formed, and no
-- call but a finalization brings a terminal investigation back.
use sre_agent_team.Base.{
  ℕ, ◌≡◌, refl, inl, inr, Bool, String, some, arith, leb, Option-cases, Bool-cases,
}
use sre_agent_team.Base.Dict.{
  lookup, erase, update, insert-Distinct, update-Distinct, erase-Distinct,
}
use sre_agent_team.Registry.Record.{ReservationState, InvestigationRecord, Registry, Settings}
use sre_agent_team.Registry.Reads.{get_investigation, cleanup_expired}
use sre_agent_team.Registry.Admission.{
  ReservationRequest, Readings, reserve_investigation, reserve_clean, admit, finalize_reservation,
  new_record, attach_thread,
}
use sre_agent_team.Registry.Lifecycle.{
  complete_investigation, set_terminal, record_findings_metadata, set_findings, stamp_findings,
  record_status_poll, admit_status_poll, count_status_poll, record_summary_poll, admit_summary_poll,
  count_summary_poll,
}
use sre_agent_team.Registry.Replay.{erase_all-Distinct}
use sre_agent_team.Registry.Invariant.{
  IsSound, IsValid, lookup-AllSound, insert-AllSound, update-AllSound, erase-AllSound,
  erase_all-AllSound,
}

module _ (c : Settings) where
  pub cleanup-IsValid :
      (limit now : ℕ) (s : Registry) → IsValid c s → IsValid c (cleanup_expired limit now s).1
  unfolding cleanup_expired
  cleanup-IsValid limit now s v = record {
    distinct = erase_all-Distinct _ s.records v.distinct;
    sound = erase_all-AllSound c _ s.records v.sound;
  }

  pub admit-IsValid :
      (q : ReservationRequest) (w : Readings) (s : Registry)
      → IsValid c s
      → IsValid c (admit c q w s).1
  unfolding admit new_record
  admit-IsValid q w s v =
      let r = new_record c q w in
      let k = w.investigation_uuid in
      ground (
        arith,
        insert-Distinct k r s.records v.distinct,
        insert-AllSound c k r s.records (refl, omega arith, omega arith, omega arith) v.sound,
      )

  pub reserve-IsValid :
      (q : ReservationRequest) (w : Readings) (s : Registry)
      → IsValid c s
      → IsValid c (reserve_investigation c q w s).1
  unfolding reserve_investigation reserve_clean
  reserve-IsValid q w s v =
      let s' = (cleanup_expired c.max_expiry_cleanup_batch_size w.cleanup_time s).1 in
      let v' : IsValid c s' = cleanup-IsValid _ _ s v in ground (arith, v', admit-IsValid q w s' v')

  -- Assignments to the attributes of one record keep the registry valid if they keep it sound.
  pub change-IsValid :
      (k : String) (f : InvestigationRecord → InvestigationRecord) (r : InvestigationRecord)
      (s : Registry)
      → lookup k s.records ≡ some r
      → (IsSound c k r → IsSound c k (f r))
      → IsValid c s
      → IsValid c (record s { records = update k f s.records })
  change-IsValid k f r s found keep v = record {
    distinct = update-Distinct k f s.records v.distinct;
    sound =
        update-AllSound c k f r s.records found
          (keep (lookup-AllSound c k r s.records v.sound found)) v.sound;
  }

  pub drop-IsValid :
      (k : String) (s : Registry)
      → IsValid c s
      → IsValid c (record s { records = erase k s.records })
  drop-IsValid k s v = record {
    distinct = erase-Distinct k s.records v.distinct;
    sound = erase-AllSound c k s.records v.sound;
  }

  pub finalize-IsValid :
      (id app thread : String) (t : ℕ) (s : Registry)
      → IsValid c s
      → IsValid c (finalize_reservation id app thread t s).1
  unfolding finalize_reservation
  finalize-IsValid id app thread t s v = elim (Option-cases (lookup id s.records)) [
    | inl gone ↦ ground arith
    | inr (r, found) ↦
        ground (arith, change-IsValid id (attach_thread thread t) r s found (λ h. h) v)
  ]

  pub complete-IsValid :
      (id app : String) (terminal : ReservationState) (t : ℕ) (s : Registry)
      → IsValid c s
      → IsValid c (complete_investigation c id app terminal t s).1
  unfolding complete_investigation set_terminal
  complete-IsValid id app terminal t s v = elim (Option-cases (lookup id s.records)) [
    | inl gone ↦ ground arith
    | inr (r, found) ↦
        ground
          (arith, change-IsValid id (set_terminal c terminal t) r s found (λ h. ground arith) v)
  ]

  pub findings-IsValid :
      (id app : String) (valid : Bool) (strategy : String) (redacted : Bool) (t : ℕ) (s : Registry)
      → IsValid c s
      → IsValid c (record_findings_metadata c id app valid strategy redacted t s).1
  unfolding record_findings_metadata set_findings stamp_findings
  findings-IsValid id app valid strategy redacted t s v =
      elim (Option-cases (lookup id s.records)) [
        | inl gone ↦ ground arith
        | inr (r, found) ↦ ground (
          arith,
          change-IsValid id (set_findings c valid strategy redacted t) r s found (λ h. ground arith)
              v,
        )
      ]

  pub get-IsValid :
      (id oid app : String) (t : ℕ) (s : Registry)
      → IsValid c s
      → IsValid c (get_investigation id oid app t s).1
  unfolding get_investigation
  get-IsValid id oid app t s v = ground (arith, drop-IsValid id s v)

  pub status_poll-IsValid :
      (id oid app : String) (t now : ℕ) (s : Registry)
      → IsValid c s
      → IsValid c (record_status_poll c id oid app t now s).1
  unfolding record_status_poll get_investigation admit_status_poll
  status_poll-IsValid id oid app t now s v = elim (Option-cases (lookup id s.records)) [
    | inl gone ↦ ground arith
    | inr (r, found) ↦
        elim (Bool-cases (leb c.max_status_polls_per_investigation r.status_poll_count)) [
          | inl full ↦ ground (arith, drop-IsValid id s v)
          | inr room ↦ ground (
            arith,
            drop-IsValid id s v,
            change-IsValid id (count_status_poll now) r s found (λ h. ground arith) v,
          )
        ]
  ]

  pub summary_poll-IsValid :
      (id oid app : String) (t now : ℕ) (s : Registry)
      → IsValid c s
      → IsValid c (record_summary_poll c id oid app t now s).1
  unfolding record_summary_poll get_investigation admit_summary_poll
  summary_poll-IsValid id oid app t now s v = elim (Option-cases (lookup id s.records)) [
    | inl gone ↦ ground arith
    | inr (r, found) ↦
        elim (Bool-cases (leb c.max_summary_polls_per_investigation r.summary_poll_count)) [
          | inl full ↦ ground (arith, drop-IsValid id s v)
          | inr room ↦ ground (
            arith,
            drop-IsValid id s v,
            change-IsValid id (count_summary_poll now) r s found (λ h. ground arith) v,
          )
        ]
  ]
