-- ===== src/Table/Recorded.antt =====
-- escalation-proxy/app/investigation_registry.py: `finalize_reservation` and `record_findings_metadata` of the two
-- registries.
use sre_agent_team.Base.{ℕ, ◌≡◌, refl, Bool, String, Option, none, some, arith, inl, inr, ==_refl}
use sre_agent_team.Base.Fallible.{ok, err}
use sre_agent_team.Base.Dict.{update}
use sre_agent_team.Registry.Record.{
  InvestigationRecord, Registry, Settings, investigation_not_found, reservation_not_found,
}
use sre_agent_team.Registry.Admission.{attach_thread}
use sre_agent_team.Registry.Admission
use sre_agent_team.Registry.Lifecycle
use sre_agent_team.Registry.Lifecycle.{set_findings, stamp_findings}
use sre_agent_team.Table.Entity.{Entity, not_found, to_entity}
use sre_agent_team.Table.Client.{TableClient, update_read, again_on_conflict}
use sre_agent_team.Table.Admission.{finalize_attempt, finalize_reservation}
use sre_agent_team.Table.Lifecycle.{findings_attempt, record_findings_metadata}
use sre_agent_team.Table.Laws.{IsAlone}
use sre_agent_team.Table.RoundTrip.{stored, from_entity-stored}
use sre_agent_team.Table.Stored.{
  caller-stored, finalized-stored, expires-stored, findings_entity-stored,
}
use sre_agent_team.Table.Represents.{IsId, Represents}
use sre_agent_team.Table.Agreement.{Agree, Agree-from, Here, Here-cases}
use sre_agent_team.Table.Updating.{rounds_Agree, missing_Agree, Elsewhere-refused}

module _ {T : Type 0} (client : TableClient T) (rows : T → String → String → Option Entity)
    (alone : IsAlone client rows) (fresh : String) (settings : Settings) (id pk : String) (t : T)
    (s : Registry) (rep : Represents rows t s) (is_id : IsId id) where
  finalize-Here :
      (thread : String) (now : ℕ) (r : InvestigationRecord) (tag : Option String)
      → Here rows t s id pk r
      → rows t pk id ≡ some (stored tag r)
      → finalize_attempt client fresh id pk thread now t
        ≡ again_on_conflict
            (update_read client (to_entity (attach_thread thread now r)) (stored tag r))
            t
  unfolding finalize_attempt
  finalize-Here thread now r tag (found, mine, _) here = ground (
    arith,
    alone.reads pk id t,
    from_entity-stored fresh tag r,
    ==_refl pk,
    rep.owners id r found,
  )

  finalize_missing :
      (thread : String) (now : ℕ)
      → rows t pk id ≡ none
      → finalize_attempt client fresh id pk thread now t ≡ (err not_found, t)
  unfolding finalize_attempt
  finalize_missing thread now gone = ground (arith, alone.reads pk id t)

  findings-Here :
      (valid : Bool) (strategy : String) (redacted : Bool) (now : ℕ) (r : InvestigationRecord)
      (tag : Option String)
      → Here rows t s id pk r
      → rows t pk id ≡ some (stored tag r)
      → findings_attempt client settings id pk valid strategy redacted now t
        ≡ again_on_conflict
            (update_read client
              (stored tag (set_findings settings valid strategy redacted now r))
              (stored tag r))
            t
  unfolding findings_attempt
  findings-Here valid strategy redacted now r tag (found, mine, _) here = ground (
    arith,
    alone.reads pk id t,
    caller-stored tag r pk,
    expires-stored tag r,
    finalized-stored tag r,
    findings_entity-stored settings valid strategy redacted now tag r,
    ==_refl pk,
    rep.owners id r found,
  )

  pub finalize_Agree :
      (thread : String) (clock : ℕ → ℕ)
      → Agree rows
          (finalize_reservation client fresh id pk thread clock t)
          (Admission.finalize_reservation id pk thread (clock 0) s)
  unfolding finalize_reservation Admission.finalize_reservation to_entity
  finalize_Agree thread clock =
      let attempt = λ (n : ℕ). finalize_attempt client fresh id pk thread (clock n) in
      elim (Here-cases rows t s id pk rep is_id) [
        | inl (r, (found, mine, (tag, here))) ↦
            let f = attach_thread thread (clock 0) in
            Agree-from rows _ _ _ (ok tt, record s { records = update id f s.records }) refl
              (ground (arith, rep.owners id r found, ==_refl pk))
              (rounds_Agree client rows alone id pk t s rep is_id 2 attempt f r none tag
                (finalize-Here thread (clock 0) r tag (found, mine, (tag, here)) here) found mine
                here refl refl refl)
        | inr h ↦
            Agree-from rows _ _ _ (err reservation_not_found, s) refl
              (Elsewhere-refused rows id pk t s rep reservation_not_found _ h
                (λ r found other. ground arith) (λ found. ground arith))
              (missing_Agree client rows alone id pk t s rep is_id 2 attempt reservation_not_found
                refl (finalize_missing thread (clock 0) h.1))
      ]

  findings_missing :
      (valid : Bool) (strategy : String) (redacted : Bool) (now : ℕ)
      → rows t pk id ≡ none
      → findings_attempt client settings id pk valid strategy redacted now t ≡ (err not_found, t)
  unfolding findings_attempt
  findings_missing valid strategy redacted now gone = ground (arith, alone.reads pk id t)

  set_findings_keys :
      (valid : Bool) (strategy : String) (redacted : Bool) (now : ℕ) (r : InvestigationRecord)
      → let x = set_findings settings valid strategy redacted now r in
        (x.investigation_id ≡ r.investigation_id)
        × (x.caller_appid ≡ r.caller_appid)
        × (x.workload_identity_appid ≡ r.workload_identity_appid)
  unfolding set_findings stamp_findings
  set_findings_keys valid strategy redacted now r = ground arith

  pub findings_Agree :
      (valid : Bool) (strategy : String) (redacted : Bool) (clock : ℕ → ℕ)
      → Agree rows
          (record_findings_metadata client settings id pk valid strategy redacted clock t)
          (Lifecycle.record_findings_metadata settings id pk valid strategy redacted (clock 0) s)
  unfolding record_findings_metadata Lifecycle.record_findings_metadata
  findings_Agree valid strategy redacted clock =
      let attempt =
        λ (n : ℕ). findings_attempt client settings id pk valid strategy redacted (clock n) in
      elim (Here-cases rows t s id pk rep is_id) [
        | inl (r, (found, mine, (tag, here))) ↦
            let f = set_findings settings valid strategy redacted (clock 0) in
            let (same_id, same_caller, same_owner) =
              set_findings_keys valid strategy redacted (clock 0) r in
            Agree-from rows _ _ _ (ok tt, record s { records = update id f s.records }) refl
              (ground (arith, rep.owners id r found, ==_refl pk))
              (rounds_Agree client rows alone id pk t s rep is_id 2 attempt f r tag tag
                (findings-Here valid strategy redacted (clock 0) r tag (found, mine, (tag, here))
                  here)
                found mine here same_id same_caller same_owner)
        | inr h ↦
            Agree-from rows _ _ _ (err investigation_not_found, s) refl
              (Elsewhere-refused rows id pk t s rep investigation_not_found _ h
                (λ r found other. ground arith) (λ found. ground arith))
              (missing_Agree client rows alone id pk t s rep is_id 2 attempt investigation_not_found
                refl (findings_missing valid strategy redacted (clock 0) h.1))
      ]
